-- ===== src/Lib.antt =====
-- The C core of libchewing, an input method for Chinese by phonetic symbols (Bopomofo): the build
-- without the option WITH_RUST.
--
-- A key goes to the state machine of one syllable (src/bopomofo.c), which collects the indices of
-- an initial, a medial, a final and a tone, on 13 keyboard layouts. It asks src/common/key2pho.c
-- what symbol a key stands for, on the pinyin layouts src/pinyin.c, and at the end of a syllable
-- the dictionary whether a word has the phone, a number of 16 bits that packs the four indices. A
-- committed phone goes into the edit buffer (src/chewingutil.c), between characters and symbols.
-- The phones of the buffer are cut into words by src/tree.c, which looks up every stretch of phones
-- in the tree of the dictionary and among the user's phrases. The same two give the candidates for
-- a stretch of phones (src/choice.c), and what the user selects bounds the later phrasings. All of
-- it stands on strings of UTF-8 characters (src/common/chewing-utf8-util.c).
--
-- - Common: names of the libraries, tests on numbers, lists and options, facts over a small range
--   of numbers. CString: the functions of C's string.h that the sources call.
-- - Utf8: src/common/chewing-utf8-util.c. Chars states whole characters, Search ueStrStr.
-- - Key2pho: src/common/key2pho.c. Tables has its arrays, Sequence the functions on arrays of
--   phones; the other children are lemmas: Bits on the packed fields, Symbols and Entries on the
--   symbols of the tables, Syllable and Codec on the text of a phone, Keys on PhoneInxFromKey, and
--   Sequence/Joined on the text of several phones.
-- - Pinyin: PinyinToBopomofo of src/pinyin.c; Fits bounds what it writes.
-- - Bopomofo: src/bopomofo.c, with the layouts Hsu, Et26, DachenCp26 and PinYin in children of
--   these names, and BopomofoPhoInput in Input. Valid is the invariant, EndKey, Steps and Invariant
--   keep it, Reach follows sequences of keys; Typing, Commit and Syllables are about the layouts
--   with one key for each symbol, Removal about BopomofoRemoveLast, Carpalx about the last layout.
-- - Editing: the edit buffer of src/chewingutil.c. Arrays is about memmove, Contents is the text
--   that the arrays stand for, WellFormed the invariant; Insert, Kill, Delete and Compose are about
--   the operations. Release has ReleaseChiSymbolBuf, with Shorter and Head about it, Prefer
--   MakePreferInterval, with Parts and Partition about it, and Index the search for a phone's
--   character and the tests on intervals.
-- - Dictionary: TreeFindPhrase of src/tree.c and the readers of src/dict.c; Search is about the
--   binary search in a range, Path about the paths through the tree.
-- - Phrasing: src/tree.c. FindInterval is in the file itself, SetInfo, Discard1 and Discard2 in
--   Discard, the scores in Score, DoDpPhrasing in Dp, the search for all phrasings in Records, and
--   Phrasing with its output in Run. Allowed and Found are about FindInterval; Discard/Kept,
--   Preserved, Leftmost and Both about what is dropped; Dp/Tiles, Sorting and Result about
--   DoDpPhrasing; Records/Weeded and Sound about the saved records; Run/Lossless about the whole
--   choice.
-- - UserPhrase: src/userphrase-hash.c and src/hash.c, the build without SQLite. The file itself has
--   the frequencies, Table the hash table, Record the records of the file, Disk HashModify, Update
--   the operations on all of it with InitUserphrase. Lookup and Walk are about the table, Frequency
--   about UpdateFreq, Record/RoundTrip about the records; Update/Stored, Highest and
--   Updated about UserUpdatePhrase, Loaded about InitUserphrase.
-- - Choice: src/choice.c. The file itself has the records and the selected intervals, Avail the
--   lengths, Candidates the candidates, Session the functions that a key calls. Disjoint and
--   Selected are about the selections, Collected and Choices about the candidates.
-- - Conversion: CallPhrasing of src/chewingutil.c, which joins the edit buffer, the user's phrases
--   and the phrasing, and in Learn AutoLearnPhrase, which joins the first two. Prepared is about
--   the marks that CallPhrasing sets.
-- - Tests: concrete inputs.
--
-- A function keeps the name of the C function, in lower case with underscores, and a struct its
-- own. A C string is the list of its bytes before the NUL, an array a list of its full size, an int
-- that is never below 0 a natural number, and an int of the user's phrases one of the type ℤ. A
-- result `none` is an access out of range or a failed assertion; a function whose result is no
-- Option cannot have one, but for phone_inx_from_key, whose result is then 0. Loops are recursion
-- on the list or the number that they count; the loops over selected intervals have as many rounds
-- as there are intervals, and every round uses one up; a walk to the root of a set has as many as
-- there are sets, and goes to a smaller number each time; the recursion over intervals has one more
-- than there are, and goes to a later one each time; a binary search has as many rounds as its range
-- has nodes, and makes the range smaller each time.
--
-- In src/bopomofo.c the dictionary lookup GetCharFirst is the parameter `has_word`; the contents of
-- pinyin.tab are the parameter `table`, those of the files of the dictionary the parameter
-- `static`. C leaves the order of equal elements after qsort open, and the model keeps their
-- order; bsearch looks at the middle of the range, as in glibc. Sums of scores have no bound; in
-- C they are of the type int. Not modelled: the reading of other files, the migration of text files
-- of user phrases, memory that runs out, user phrases in SQLite (src/chewing-sql.c,
-- src/userphrase-sql.c), the public functions (src/chewingio.c), symbol tables and the output
-- record in src/chewingutil.c, the Rust implementation and the copy of SQLite in thirdparty.
pub mod Common
pub mod CString
pub mod Utf8
pub mod Key2pho
pub mod Pinyin
pub mod Bopomofo
pub mod Editing
pub mod Tests
pub mod Dictionary
pub mod Phrasing
pub mod UserPhrase
pub mod Choice
pub mod Conversion
