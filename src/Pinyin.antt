-- ===== src/Pinyin.antt =====
-- src/pinyin.c: from a pinyin string to the keys of the default layout.
pub mod Fits
use libchewing.Common.{
  ℕ, Option, none, some, List, [], ◌∷◌, ◌++◌, ◌==◌, ◌&&◌, ◌||◌, if◌then◌else◌, drop, length, arith,
}
use libchewing.CString.{bytes, str_eq, starts_with}

-- `keymap`, two C strings.
pub record Keymap : Type 0 where
  pub pinyin : List ℕ
  pub bopomofo : List ℕ

-- The two arrays that `InitPinyin` reads from pinyin.tab, each without the last entry, which
-- stays empty.
pub record PinyinTable : Type 0 where
  pub initials : List Keymap
  pub finals : List Keymap

abbrev pub empty_keymap : Keymap
empty_keymap = record { pinyin = []; bopomofo = [] }

abbrev pub entry : List ℕ → List ℕ → Keymap
entry k v = record { pinyin = k; bopomofo = v }

-- The special cases, in three chains of `else if`. A pair of readings is one string with a space.
abbrev pub wg_special : List Keymap
wg_special =
    entry (bytes "tzu") (bytes "y yj")
    ∷ entry (bytes "ssu") (bytes "n n")
    ∷ entry (bytes "szu") (bytes "n n")
    ∷ []

abbrev pub common_special : List Keymap
common_special =
    entry (bytes "e") (bytes "k ,")
    ∷ entry (bytes "ch") (bytes "t f")
    ∷ entry (bytes "sh") (bytes "g v")
    ∷ entry (bytes "c") (bytes "h f")
    ∷ entry (bytes "s") (bytes "n v")
    ∷ entry (bytes "nu") (bytes "sj sm")
    ∷ entry (bytes "lu") (bytes "xj xm")
    ∷ entry (bytes "luan") (bytes "xj0 xm0")
    ∷ entry (bytes "niu") (bytes "su. sm")
    ∷ entry (bytes "liu") (bytes "xu. xm")
    ∷ entry (bytes "jiu") (bytes "ru. rm")
    ∷ entry (bytes "chiu") (bytes "fu. fm")
    ∷ entry (bytes "shiu") (bytes "vu. vm")
    ∷ entry (bytes "ju") (bytes "rm 5j")
    ∷ entry (bytes "juan") (bytes "rm0 5j0")
    ∷ []

abbrev pub hanyu_special : List Keymap
hanyu_special =
    entry (bytes "chi") (bytes "t fu")
    ∷ entry (bytes "shi") (bytes "g vu")
    ∷ entry (bytes "ci") (bytes "h fu")
    ∷ entry (bytes "si") (bytes "n vu")
    ∷ []

abbrev pub thl_special : List Keymap
thl_special =
    entry (bytes "chi") (bytes "fu t")
    ∷ entry (bytes "shi") (bytes "vu g")
    ∷ entry (bytes "ci") (bytes "fu h")
    ∷ entry (bytes "si") (bytes "vu n")
    ∷ []

abbrev pub mps2_special : List Keymap
mps2_special =
    entry (bytes "chi") (bytes "fu t")
    ∷ entry (bytes "shi") (bytes "vu g")
    ∷ entry (bytes "ci") (bytes "fu h")
    ∷ entry (bytes "si") (bytes "vu n")
    ∷ entry (bytes "niu") (bytes "sm su.")
    ∷ entry (bytes "liu") (bytes "xm xu.")
    ∷ entry (bytes "jiu") (bytes "rm ru.")
    ∷ entry (bytes "chiu") (bytes "fm fu.")
    ∷ entry (bytes "shiu") (bytes "vm vu.")
    ∷ entry (bytes "ju") (bytes "5j rm")
    ∷ entry (bytes "juan") (bytes "5j0 rm0")
    ∷ entry (bytes "juen") (bytes "5jp 5jp")
    ∷ entry (bytes "tzu") (bytes "yj y")
    ∷ []

-- One chain of tests with `strcmp`.
unfoldable pub find_exact : List Keymap → List ℕ → Option (List ℕ)
unfolding str_eq
find_exact [] s = none
find_exact (m ∷ maps) s =
    let rest = find_exact maps s in if str_eq s m.pinyin then some m.bopomofo else rest

-- The chain of the layout comes last in the source, so it decides first.
unfoldable pub special : ℕ → List ℕ → Option (List ℕ)
unfolding find_exact
special kbtype s =
    let of_layout =
      if kbtype == 9
      then find_exact hanyu_special s
      else if kbtype == 10
      then find_exact thl_special s
      else if kbtype == 11
      then find_exact mps2_special s
      else none in
    elim of_layout [
      | some seq ↦ some seq
      | none ↦ elim (find_exact common_special s) [
        | some seq ↦ some seq
        | none ↦ find_exact wg_special s
      ]
    ]

-- `strtok` with the delimiter " " on a string that starts with none: the token and what is left.
unfoldable pub token : List ℕ → List ℕ × List ℕ
token [] = ([], [])
token (c ∷ s) = let (word, rest) = token s in if c == b' ' then ([], s) else (c ∷ word, rest)

-- The first entry that the string starts with.
unfoldable pub find_initial : List Keymap → List ℕ → Option Keymap
unfolding starts_with
find_initial [] s = none
find_initial (m ∷ maps) s =
    let rest = find_initial maps s in if starts_with s m.pinyin then some m else rest

-- An entry of pinyin.tab for the empty final is "=".
unfoldable pub fix_empty : List ℕ → List ℕ → List ℕ
unfolding str_eq
fix_empty initial final =
    let final' = if str_eq final (bytes "=") then [] else final in
    if str_eq final' (bytes "u")
      && (str_eq initial (bytes "5")
          || str_eq initial (bytes "t")
          || str_eq initial (bytes "g")
          || str_eq initial (bytes "b")
          || str_eq initial (bytes "y")
          || str_eq initial (bytes "h")
          || str_eq initial (bytes "n"))
    then []
    else final'

-- The round u after j, q and x.
unfoldable pub fix_round : List ℕ → List ℕ → List ℕ
unfolding str_eq
fix_round initial final =
    if str_eq initial (bytes "f") || str_eq initial (bytes "r") || str_eq initial (bytes "v")
    then if str_eq final (bytes "j0")
      then bytes "m0"
      else if str_eq final (bytes "jp")
      then bytes "mp"
      else if str_eq final (bytes "j")
      then bytes "m"
      else final
    else final

-- The initial before i and iu, and before the others.
unfoldable pub fix_initial : List ℕ → List ℕ → List ℕ
unfolding str_eq starts_with
fix_initial initial final =
    if starts_with final (bytes "u") || starts_with final (bytes "m")
    then if str_eq initial (bytes "n")
      then bytes "v"
      else if str_eq initial (bytes "g")
      then bytes "v"
      else if str_eq initial (bytes "h")
      then bytes "f"
      else if str_eq initial (bytes "t")
      then bytes "f"
      else initial
    else if str_eq initial (bytes "r")
    then bytes "5"
    else initial

unfoldable pub fix_labial : List ℕ → List ℕ → List ℕ
unfolding str_eq
fix_labial initial final =
    if str_eq initial (bytes "1")
      || str_eq initial (bytes "q")
      || str_eq initial (bytes "a")
      || str_eq initial (bytes "z")
    then if str_eq final (bytes "ji")
      then bytes "i"
      else if str_eq final (bytes "j/")
      then bytes "/"
      else final
    else final

-- What `PinyinToBopomofo` returns: 0 with the two strings, or an error.
pub data PinyinResult : Type 0 where
  converted : List ℕ → List ℕ → PinyinResult
  no_initial no_final : PinyinResult

-- The rules on an initial with a final, in the source's order.
unfoldable pub combine : List ℕ → List ℕ → List ℕ
unfolding fix_empty fix_round fix_initial fix_labial
combine initial final =
    let final' = fix_round initial (fix_empty initial final) in
    let initial' = fix_initial initial final' in initial' ++ fix_labial initial' final'

unfoldable pub pinyin_to_bopomofo : PinyinTable → ℕ → List ℕ → PinyinResult
unfolding special token find_exact find_initial combine
pinyin_to_bopomofo table kbtype s = elim (special kbtype s) [
  | some seq ↦ converted (token seq).0 (token (token seq).1).0
  | none ↦ elim (find_initial (table.initials ++ empty_keymap ∷ []) s) [
    | none ↦ no_initial
    | some m ↦ elim (find_exact (table.finals ++ empty_keymap ∷ []) (drop (length m.pinyin) s)) [
      | none ↦ no_final
      | some final ↦ let both = combine m.bopomofo final in converted both both
    ]
  ]
]
