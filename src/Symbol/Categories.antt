-- ===== src/Symbol/Categories.antt =====
-- `kCategories`, engine/src/symbol/symbol_menu.cpp.
use Prim.Native.String.{String}
use ime_fcitx.Prelude.{ℕ, List, [], ◌∷◌, codes}

pub record SymbolCategory : Type 0 where
  pub label : List ℕ
  pub symbols : List ℕ

abbrev category : String → String → SymbolCategory
category label symbols = record { label = codes label; symbols = codes symbols }

-- A category without symbols is itself a symbol of the first level.
abbrev pub categories : List SymbolCategory
categories =
    category "…" ""
    ∷ category "※" ""
    ∷ category "常用符號" "，、。．？！；：‧‥﹐﹒˙·‘’“”〝〞‵′〃～＄％＠＆＃＊"
    ∷ category "左右括號" "（）「」〔〕｛｝〈〉『』《》【】﹙﹚﹝﹞﹛﹜"
    ∷ category "上下括號" "︵︶﹁﹂︹︺︷︸︿﹀﹃﹄︽︾︻︼"
    ∷ category "希臘字母" "αβγδεζηθικλμνξοπρστυφχψωΑΒΓΔΕΖΗΘΙΚΛΜΝΞΟΠΡΣΤΥΦΧΨΩ"
    ∷ category "數學符號" "＋－×÷＝≠≒∞±√＜＞﹤﹥≦≧∩∪ˇ⊥∠∟⊿㏒㏑∫∮∵∴╳﹢"
    ∷ category "特殊圖形" "↑↓←→↖↗↙↘㊣◎○●⊕⊙○●△▲☆★◇◆□■▽▼§￥〒￠￡※♀♂"
    ∷ category "Unicode" "♨☀☁☂☃♠♥♣♦♩♪♫♬☺☻"
    ∷ category "單線框" "├─┼┴┬┤┌┐╞═╪╡│▕└┘╭╮╰╯"
    ∷ category "雙線框" "╔╦╗╠═╬╣╓╥╖╒╤╕║╚╩╝╟╫╢╙╨╜╞╪╡╘╧╛"
    ∷ category "填色方塊" "＿ˍ▁▂▃▄▅▆▇█▏▎▍▌▋▊▉◢◣◥◤"
    ∷ category "線段" "﹣﹦≡｜∣∥–︱—︳╴¯￣﹉﹊﹍﹎﹋﹌﹏︴∕﹨╱╲／＼"
    ∷ []
