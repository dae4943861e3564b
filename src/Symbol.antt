-- ===== src/Symbol.antt =====
-- The symbol menu: engine/src/symbol/symbol_menu.cpp and symbol_menu.hpp.
pub mod Categories
pub mod Menu
