-- ===== src/Strlist.antt =====
-- src/strlist.h and src/strlist.c: growing lists of strings. A string is its characters without the
-- NUL; `junk` is what an element that realloc left unset reads as. What free() does to a string is
-- seen in the element that holds it, and in no other that shares it.
pub mod Holding
pub mod Ends
pub mod Fields
pub mod Split
pub mod Moving
pub mod Filter
pub mod FilterOne
pub mod Join
mod Tests
use pass_keeper.Prelude.{
  ℕ, zero, suc, ◌+◌, ◌-◌, ◌*◌, ◌/◌, ◌%◌, ◌^◌, Bool, true, false, ◌&&◌, ◌||◌, List, [], ◌∷◌, ◌++◌,
  Option, none, some, Outcome, ok, bugged, fault, ◌>>=◌, if◌then◌else◌, ltb, leb, ◌==◌, not, length,
  load, store, resize, for_range, capacity_grow,
}

-- A `char *`: a string, or memory that is freed.
pub data Str : Type 0 where
  live : List ℕ → Str
  dangling : Str

-- An `intptr_t`: 0, or a string's address.
pub data Ext : Type 0 where
  no_ext : Ext
  text : List ℕ → Ext
  freed : Ext

pub record Elem : Type 0 where
  pub str : Str
  pub ext : Ext

pub record Strlist : Type 0 where
  pub elvec : List Elem
  pub size : ℕ
  pub capacity : ℕ
  pub dupstr : Bool

-- STRLIST_INIT_DUPSTR
abbrev pub init_dupstr : Strlist
init_dupstr = record { elvec = []; size = 0; capacity = 0; dupstr = true }

-- free() of a null pointer does nothing.
unfoldable pub free_ext : Ext → Ext
free_ext no_ext = no_ext
free_ext _ = freed

unfoldable pub erased : (dupstr rmext : Bool) → Elem → Elem
erased dupstr rmext el = record {
  str = if dupstr then dangling else el.str;
  ext = if rmext then free_ext el.ext else el.ext;
}

unfoldable pub strlist_erase_at : Strlist → ℕ → Bool → Outcome Strlist
strlist_erase_at sl idx rmext = do
  el ← load sl.elvec idx
  elvec' ← store sl.elvec idx (erased sl.dupstr rmext el)
  ok (record sl { elvec = elvec' })

-- The loop of strlist_trunc and strlist_destroy, over `n` elements.
unfoldable pub erase_loop : ℕ → Strlist → Bool → Outcome Strlist
erase_loop zero sl rmext = ok sl
erase_loop (suc n) sl rmext = do
  sl' ← strlist_erase_at sl n rmext
  erase_loop n (record sl' { size = n }) rmext

unfoldable pub strlist_trunc : Strlist → Bool → Outcome Strlist
strlist_trunc sl rmext = erase_loop sl.size sl rmext

-- The pointer to the freed elements stays; the capacity of 0 is what says that none are there.
unfoldable pub strlist_destroy : Strlist → Bool → Outcome Strlist
strlist_destroy sl rmext = do
  sl' ← erase_loop sl.size sl rmext
  ok (record sl' { elvec = []; capacity = 0 })

-- sizeof(struct strlist_elem)
abbrev pub elem_size : ℕ
elem_size = 16

-- The list, and the place of the new element.
unfoldable pub strlist_push_nodup : Elem → Strlist → Str → Outcome (Strlist × ℕ)
strlist_push_nodup junk sl str = do
  capacity' ← capacity_grow elem_size (sl.size + 1) sl.capacity
  let elvec' = if ltb sl.capacity (sl.size + 1) then resize junk sl.elvec capacity' else sl.elvec
  elvec'' ← store elvec' sl.size (record { str = str; ext = no_ext })
  ok (record sl { elvec = elvec''; size = sl.size + 1; capacity = capacity' }, sl.size)

-- strdup() makes an equal string.
unfoldable pub strlist_push : Elem → Strlist → List ℕ → Outcome (Strlist × ℕ)
strlist_push junk sl str = strlist_push_nodup junk sl (live str)

unfoldable pub strlist_pop : Strlist → Outcome (Option Elem × Strlist)
strlist_pop sl =
    if sl.size == 0
    then ok (none, sl)
    else (do el ← load sl.elvec (sl.size - 1); ok (some el, record sl { size = sl.size - 1 }))

-- strchr: what stands before and behind the first `delim`.
unfoldable pub strchr : ℕ → List ℕ → Option (List ℕ × List ℕ)
strchr delim [] = none
strchr delim (c ∷ str) =
    if c == delim
    then some ([], str)
    else elim (strchr delim str) [ none ↦ none | some halves ↦ some (c ∷ halves.0, halves.1) ]

-- `maxsplit >= 0 && count >= (unsigned)maxsplit`, where none stands for a number below 0.
unfoldable pub is_last_split : Option ℕ → ℕ → Bool
is_last_split none count = false
is_last_split (some maxsplit) count = leb maxsplit count

-- The loop. A delimiter of 0 finds the NUL, and the next round reads behind it.
unfoldable pub split_loop :
    (fuel : ℕ) → Elem → Strlist → List ℕ → (delim : ℕ) → Option ℕ → ℕ → Outcome (Strlist × ℕ)
split_loop zero junk sl str delim maxsplit count0 = fault
split_loop (suc fuel) junk sl str delim maxsplit count0 =
    let count : ℕ = count0 + 1 in
    elim (is_last_split maxsplit count) [
      | true ↦ strlist_push junk sl str >>= λ pushed. ok (pushed.0, count)
      | false ↦ elim (strchr delim str) [
        | none ↦
            if delim == 0
            then fault
            else strlist_push junk sl str >>= λ pushed. ok (pushed.0, count)
        | some halves ↦ strlist_push_nodup junk sl (live halves.0) >>= λ pushed.
            split_loop fuel junk pushed.0 halves.1 delim maxsplit count
      ]
    ]

-- Every round but the last takes one delimiter out of the string.
unfoldable pub strlist_split :
    Elem → Strlist → List ℕ → (delim : ℕ) → Option ℕ → Outcome (Strlist × ℕ)
strlist_split junk sl str delim maxsplit =
    if not sl.dupstr then bugged else split_loop (length str + 1) junk sl str delim maxsplit 0

-- The first loop of strlist_filter: the places of the elements that do not pass.
unfoldable pub track_round : (Elem → Bool) → List Elem → ℕ → List ℕ → Outcome (List ℕ)
track_round compar elvec i track = do
  el ← load elvec i
  ok (if compar el then track else track ++ i ∷ [])

unfoldable pub move_back : (iii ii : ℕ) → List Elem → Outcome (List Elem)
move_back iii ii elvec = do el ← load elvec ii; store elvec (ii - iii) el

-- The number of elements to move: those up to the next place of the track, or up to the end. The
-- end is that of the list as far as it is shortened already.
unfoldable pub run_length : (ii : ℕ) → List ℕ → (size : ℕ) → ℕ
run_length ii [] size = size - (ii + 1)
run_length ii (next ∷ track) size = next - (ii + 1)

-- The second loop.
unfoldable pub filter_loop : List ℕ → ℕ → Bool → Strlist → Outcome Strlist
filter_loop [] iii0 rmext sl = ok sl
filter_loop (ii ∷ track) iii0 rmext sl = do
  sl1 ← strlist_erase_at sl ii rmext
  let iii = iii0 + 1
  elvec' ← for_range (run_length ii track sl1.size) (ii + 1) (move_back iii) sl1.elvec
  filter_loop track iii rmext (record sl1 { elvec = elvec'; size = sl1.size - 1 })

-- For an empty list the array `track` has length 0, which ISO C leaves undefined and compilers allow.
unfoldable pub strlist_filter : (Elem → Bool) → Bool → Strlist → Outcome Strlist
strlist_filter compar rmext sl = do
  track ← for_range sl.size 0 (track_round compar sl.elvec) []
  filter_loop track 0 rmext sl
