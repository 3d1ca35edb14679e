-- ===== src/Key2pho/Tables.antt =====
-- The tables of src/common/key2pho.c.
use mathlib.Core.List.{flatten}
use libchewing.Common.{ℕ, List, [], ◌∷◌, ◌++◌, map}
use libchewing.CString.{bytes}

-- The symbols U+3100 to U+3129, by the last of their three bytes.
abbrev pub zhuyin : ℕ → List ℕ
zhuyin b = 0xe3 ∷ 0x84 ∷ b ∷ []

abbrev pub tone : ℕ → List ℕ
tone b = 0xcb ∷ b ∷ []

-- The characters of the four strings of `zhuin_tab`: initials, medials, finals and tones.
abbrev pub initials : List (List ℕ)
initials = map zhuyin (
    0x85 ∷ 0x86 ∷ 0x87 ∷ 0x88 ∷ 0x89 ∷ 0x8a ∷ 0x8b ∷ 0x8c ∷ 0x8d ∷ 0x8e ∷ 0x8f ∷ 0x90 ∷ 0x91 ∷ 0x92
    ∷ 0x93 ∷ 0x94 ∷ 0x95 ∷ 0x96 ∷ 0x97 ∷ 0x98 ∷ 0x99 ∷ [])

abbrev pub medials : List (List ℕ)
medials = map zhuyin (0xa7 ∷ 0xa8 ∷ 0xa9 ∷ [])

abbrev pub finals : List (List ℕ)
finals =
    map zhuyin (
      0x9a ∷ 0x9b ∷ 0x9c ∷ 0x9d ∷ 0x9e ∷ 0x9f ∷ 0xa0 ∷ 0xa1 ∷ 0xa2 ∷ 0xa3 ∷ 0xa4 ∷ 0xa5 ∷ 0xa6 ∷ [])

abbrev pub tones : List (List ℕ)
tones = map tone (0x99 ∷ 0x8a ∷ 0x87 ∷ 0x8b ∷ [])

-- What the four arrays `zhuin_tab`, `zhuin_tab_num`, `shift` and `mask` hold at one index.
pub record Class : Type 0 where
  pub tab : List ℕ
  pub num : ℕ
  pub shift : ℕ
  pub mask : ℕ

abbrev pub class0 : Class
class0 = record { tab = flatten initials; num = 22; shift = 9; mask = 0x1f }

abbrev pub class1 : Class
class1 = record { tab = flatten medials; num = 4; shift = 7; mask = 0x3 }

abbrev pub class2 : Class
class2 = record { tab = flatten finals; num = 14; shift = 3; mask = 0xf }

abbrev pub class3 : Class
class3 = record { tab = flatten tones; num = 5; shift = 0; mask = 0x7 }

abbrev pub classes : List Class
classes = class0 ∷ class1 ∷ class2 ∷ class3 ∷ []

-- `ph_str`, the symbols in the order of the keys in `key_str`.
abbrev pub ph_chars : List (List ℕ)
ph_chars =
    map zhuyin (
      0x85 ∷ 0x86 ∷ 0x87 ∷ 0x88 ∷ 0x89 ∷ 0x8a ∷ 0x8b ∷ 0x8c ∷ 0x8d ∷ 0x8e ∷ 0x8f ∷ 0x90 ∷ 0x91
      ∷ 0x92 ∷ 0x93 ∷ 0x94 ∷ 0x95 ∷ 0x96 ∷ 0x97 ∷ 0x98 ∷ 0x99 ∷ 0xa7 ∷ 0xa8 ∷ 0xa9 ∷ 0x9a ∷ 0x9b
      ∷ 0x9c ∷ 0x9d ∷ 0x9e ∷ 0x9f ∷ 0xa0 ∷ 0xa1 ∷ 0xa2 ∷ 0xa3 ∷ 0xa4 ∷ 0xa5 ∷ 0xa6 ∷ [])
    ++ map tone (0x99 ∷ 0x8a ∷ 0x87 ∷ 0x8b ∷ [])

abbrev pub ph_str : List ℕ
ph_str = flatten ph_chars

-- One string for each keyboard type, in the order of the enumeration KB_DEFAULT, KB_HSU, ...
abbrev pub key_str : List (List ℕ)
key_str =
    bytes "1qaz2wsxedcrfv5tgbyhnujm8ik,9ol.0p;/-7634"
    ∷ bytes "bpmfdtnlgkhjvcjvcrzasexuyhgeiawomnkllsdfj"
    ∷ bytes "1234567890-qwertyuiopasdfghjkl;zxcvbn/m,."
    ∷ bytes "2wsx3edcrfvtgb6yhnujm8ik,9ol.0p;/-['=1qaz"
    ∷ bytes "bpmfdtnlvkhg7c,./j;'sexuaorwiqzy890-=1234"
    ∷ bytes "bpmfdtnlvkhgvcgycjqwsexuaorwiqzpmntlhdfjk"
    ∷ bytes "1'a;2,oq.ejpuk5yixfdbghm8ctw9rnv0lsz[7634"
    ∷ bytes "bpmfdtnlgkhjvcjvcrzasexuyhgeiawomnkllsdfj"
    ∷ bytes "qqazwwsxedcrfvttgbyhnujmuikbiolmoplnpyerd"
    ∷ bytes "1qaz2wsxedcrfv5tgbyhnujm8ik,9ol.0p;/-7634"
    ∷ bytes "1qaz2wsxedcrfv5tgbyhnujm8ik,9ol.0p;/-7634"
    ∷ bytes "1qaz2wsxedcrfv5tgbyhnujm8ik,9ol.0p;/-7634"
    ∷ bytes "1qdz2gsxmtclnv5wrjyikfap8ue,9bo.0;h/-7634"
    ∷ []
