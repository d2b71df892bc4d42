-- ===== src/Storage.antt =====
-- The JSON files of 9router_WatchEdit/core: the values that Python's `json` reads and writes, what its
-- tests find in them, and a file with the one quarantine slot beside it, as
-- 9router_WatchEdit/core/activation.py and combo_manager.py use it. The text of a value is not modelled;
-- a file holds a value's text or bytes that are none.
pub mod Reading
use Prim.Native.Nat.{Ordering}
use Prim.Native.String.{[] as «empty», ◌∷◌ as «push», compare as compare_text}
use Prim.Native.Char.{code}
use router_extra.Prelude.{
  ℕ, String, Bool, true, false, not, ◌&&◌, ◌||◌, ◌⊎◌, inl, inr, Option, none, some, List, [], ◌∷◌,
  str_eq, ltb, leb, ◌==◌, if◌then◌else◌, Option-cases,
}

-- `integer` and `other` are numbers: `other` has the text of `str` and is no integer from 0 up,
-- except where its first field says which one it equals (1.0 is 1).
mutual
  pub data Json : Type 0 where
    null : Json
    bool : Bool → Json
    integer : ℕ → Json
    other : Option ℕ → String → Json
    str : String → Json
    arr : Items → Json
    obj : Fields → Json

  pub data Items : Type 0 where
    done : Items
    item : Json → Items → Items

  pub data Fields : Type 0 where
    end : Fields
    field : String → Json → Fields → Fields

-- `raw.get(key)`
unfoldable pub field_of : String → Fields → Json
field_of k end = null
field_of k (field key v rest) = let later = field_of k rest in if str_eq key k then v else later

-- `raw.get(key, default)`
unfoldable pub field_or : String → Json → Fields → Json
field_or k default end = default
field_or k default (field key v rest) =
    let later = field_or k default rest in if str_eq key k then v else later

-- `value or default` takes the value.
unfoldable pub is_true : Json → Bool
is_true null = false
is_true (bool b) = b
is_true (integer n) = ltb 0 n
is_true (other (some n) text) = ltb 0 n
is_true (other none text) = true
is_true (str text) = not (str_eq text "")
is_true (arr done) = false
is_true (arr (item j rest)) = true
is_true (obj end) = false
is_true (obj (field k j rest)) = true

-- `value == n` for a number from 0 up; `True` is 1 and `False` is 0.
unfoldable pub equals : ℕ → Json → Bool
equals n (bool true) = n == 1
equals n (bool false) = n == 0
equals n (integer m) = m == n
equals n (other (some m) text) = m == n
equals n j = false

-- `isinstance(xs, list) and all(isinstance(m, str) for m in xs)`, with the list.
cons_text : Json → Option (List String) → Option (List String)
cons_text (str t) (some ts) = some (t ∷ ts)
cons_text j ts? = none

unfoldable pub texts_of : Items → Option (List String)
unfolding cons_text
texts_of done = some []
texts_of (item j rest) = cons_text j (texts_of rest)

unfoldable pub read_texts : Json → Option (List String)
unfolding texts_of
read_texts (arr xs) = texts_of xs
read_texts j = none

unfoldable pub items_of : List String → Items
items_of [] = done
items_of (t ∷ ts) = item (str t) (items_of ts)

-- `sorted` of texts.
text_le : String → String → Bool
text_le a b = elim (compare_text a b) [ Ordering.gt ↦ false | _ ↦ true ]

unfoldable pub insert_text : String → List String → List String
unfolding text_le
insert_text t [] = t ∷ []
insert_text t (u ∷ us) = let rest = insert_text t us in if text_le t u then t ∷ u ∷ us else u ∷ rest

unfoldable pub sort_texts : List String → List String
unfolding insert_text
sort_texts [] = []
sort_texts (t ∷ ts) = insert_text t (sort_texts ts)

-- `str.isspace` of one character.
unfoldable pub is_space : ℕ → Bool
is_space c =
    leb 9 c && leb c 13
    || leb 28 c && leb c 32
    || c == 133
    || c == 160
    || c == 5760
    || leb 8192 c && leb c 8202
    || c == 8232
    || c == 8233
    || c == 8239
    || c == 8287
    || c == 12288

-- `not text.strip()`
unfoldable pub is_blank : String → Bool
unfolding is_space
is_blank «empty» = true
is_blank («push» c s) = is_space (code c) && is_blank s

pub data Content : Type 0 where
  raw : String → Content
  text : Json → Content

pub record Disk : Type 0 where
  pub file : Option Content
  pub quarantine : Option Content

-- What the operating system refuses: reading the file, writing the quarantine, of which then
-- remains what `left` says, and removing the file.
pub record Faults : Type 0 where
  pub unreadable : Bool
  pub left : Option (Option Content)
  pub kept_source : Bool

-- The source is written to the quarantine; whether that succeeded.
unfoldable pub quarantine_at : Option (Option Content) → Content → Disk → Disk × Bool
quarantine_at (some remains) c d = (record d { quarantine = remains }, false)
quarantine_at none c d = (record d { quarantine = some c }, true)

unfoldable pub remove_source : Bool → Option Content → Option Content
remove_source true file = file
remove_source false file = none

unfoldable pub aside_at : Option (Option Content) → Bool → Content → Disk → Disk × Bool
unfolding remove_source
aside_at (some remains) kept c d = (record d { quarantine = remains }, false)
aside_at none kept c d = (record { file = remove_source kept d.file; quarantine = some c }, true)

-- The source is written to the quarantine, then removed; whether the first succeeded.
unfoldable pub set_aside : Faults → Content → Disk → Disk × Bool
unfolding aside_at
set_aside f c d = aside_at f.left f.kept_source c d

-- The stages of a save.
pub data Stage : Type 0 where
  serialize mkdir write fsync replace : Stage

-- A save that stops at a stage, or replaces the file.
unfoldable pub write_file : Option Stage → Json → Disk → Disk × Option Stage
write_file none j d = (record d { file = some (text j) }, none)
write_file (some stage) j d = (d, some stage)

-- What a load found.
pub data LoadState : Type 0 where
  absent_file loaded_file malformed_json invalid_record io_error : LoadState
