-- ===== src/Records/Lines.antt =====
-- src/handle-record.c: reading one value out of the lines of a record file.
use pass_keeper.Prelude.{
  ℕ, zero, suc, ◌+◌, ◌^◌, ◌<◌, ◌≡◌, refl, sym, ap, subst, ◌∙◌, true, false, List, [], ◌∷◌, ◌++◌,
  append_assoc, map, some, Outcome, ok, ◌>>=◌, Returns, if_not, ltb, ◌==◌, length, length-append,
  get_elem?, get_elem?-append, load, arith,
}
use pass_keeper.Strbuf.{Strbuf, strbuf_puts, strbuf_write}
use pass_keeper.Strbuf.Room.{Holds}
use pass_keeper.Strbuf.Refines.{write_lem}
use pass_keeper.Strbuf.Trim.{detach_lem}
use pass_keeper.Strlist.{Strlist, Elem}
use pass_keeper.Strlist.Holding.{of_str}
use pass_keeper.Cipher.Unterminated.{NoNul, c_string-terminated}
use pass_keeper.Records.{Record, Member, set_member}
use pass_keeper.Records.Reader.{str_of, line_at, begins_with, put_line, value_loop, take_value}

-- The list has these lines.
abbrev pub HasLines : Strlist → List (List ℕ) → Type 0
HasLines lines ls =
    (tail : List Elem) × (lines.elvec ≡ map of_str ls ++ tail) × (lines.size ≡ length ls)

load_line :
    (ls : List (List ℕ)) (tail : List Elem) (i : ℕ) (l : List ℕ)
    → get_elem? ls i ≡ some l
    → load (map of_str ls ++ tail) i ≡ ok (of_str l)
unfolding load
load_line [] tail i l h = absurd (cc)
load_line (x ∷ ls) tail zero l h = ap (λ y. ok (of_str y)) {x = x} (cc)
load_line (x ∷ ls) tail (suc i) l h = load_line ls tail i l h

pub line_at_lem :
    (lines : Strlist) (ls : List (List ℕ)) (i : ℕ) (l : List ℕ)
    → HasLines lines ls
    → get_elem? ls i ≡ some l
    → line_at lines i ≡ ok l
unfolding line_at str_of
line_at_lem lines ls i l (tail, e, n) h = rw (e, load_line ls tail i l h) refl

-- The end of a value: the end of the lines, or an id.
abbrev pub EndsValue : List (List ℕ) → Type 0
EndsValue [] = Unit
EndsValue (l ∷ ls) = begins_with b':' l ≡ true

-- A line that stands for itself in a file.
abbrev pub IsPlain : List ℕ → Type 0
IsPlain [] = ⊥
IsPlain (c ∷ str) = ((c == b'|') ≡ false) × ((c == b':') ≡ false)

-- What a value leaves: the place behind it, an empty buffer, and the record.
abbrev pub Took : ℕ → Record → ℕ × Strbuf × Record → Type 0
Took at rec r = (r.0 ≡ at) × Holds r.1 [] × (r.2 ≡ rec)

module _ (junk : ℕ) (lines : Strlist) where
  value_loop_stops :
      (fuel ii : ℕ) (pre post : List (List ℕ)) (field : Strbuf)
      → HasLines lines (pre ++ post)
      → ii ≡ length pre
      → EndsValue post
      → value_loop (suc fuel) junk lines ii field ≡ ok (ii, field)
  unfolding value_loop
  value_loop_stops fuel ii pre [] field h e ends =
      let outside : ltb ii lines.size ≡ false = ground (arith, h.2, e, length-append pre []) in
      rw (value_loop, outside) refl
  value_loop_stops fuel ii pre (l ∷ post) field h e ends =
      let inside : ltb ii lines.size ≡ true =
        ground (arith, h.2, e, length-append pre (l ∷ post)) in
      rw
        (
          value_loop,
          inside,
          line_at_lem lines (pre ++ l ∷ post) ii l h
              (ap (get_elem? (pre ++ l ∷ post)) e ∙ get_elem?-append pre post l),
        )
        (ap
          (λ b. elim b as (λ x. Outcome (ℕ × Strbuf)) [
            | true ↦ ok (ii, field)
            | false ↦ put_line junk field l >>= λ field'. value_loop fuel junk lines (ii + 1) field'
          ])
          ends)

  -- A value of one line.
  value_loop_line :
      (fuel ii : ℕ) (pre post : List (List ℕ)) (v : List ℕ) (field : Strbuf)
      → HasLines lines (pre ++ v ∷ post)
      → ii ≡ length pre
      → IsPlain v
      → length v < 2 ^ 53
      → EndsValue post
      → Holds field []
      → Returns
          (λ r. (r.0 ≡ ii + 1) × Holds r.1 v)
          (value_loop (suc (suc fuel)) junk lines ii field)
  unfolding value_loop put_line begins_with
  value_loop_line fuel ii pre post [] field h e plain short ends hold = absurd plain
  value_loop_line fuel ii pre post (c ∷ v) field h e plain short ends hold =
      let inside : ltb ii lines.size ≡ true =
        ground (arith, h.2, e, length-append pre ((c ∷ v) ∷ post)) in
      let split : pre ++ (c ∷ v) ∷ post ≡ (pre ++ (c ∷ v) ∷ []) ++ post =
        sym (append_assoc pre ((c ∷ v) ∷ []) post) in
      let w = write_lem junk field [] (c ∷ v) hold (omega arith) in
      let more =
        value_loop_stops fuel (ii + 1) (pre ++ (c ∷ v) ∷ []) post w.0
          (subst (HasLines lines) split h) (omega (arith, e, length-append pre ((c ∷ v) ∷ [])))
          ends in
      (
        (ii + 1, w.0),
        rw
            (
              value_loop,
              inside,
              line_at_lem lines (pre ++ (c ∷ v) ∷ post) ii (c ∷ v) h
                  (ap (get_elem? (pre ++ (c ∷ v) ∷ post)) e ∙ get_elem?-append pre post (c ∷ v)),
            )
            (ap
                (λ b. elim b as (λ x. Outcome (ℕ × Strbuf)) [
                  | true ↦ ok (ii, field)
                  | false ↦ put_line junk field (c ∷ v) >>= λ field'.
                      value_loop (suc fuel) junk lines (ii + 1) field'
                ])
                plain.1
              ∙ (ap (λ m. m >>= λ field'. value_loop (suc fuel) junk lines (ii + 1) field')
                    (if_not (c == b'|') plain.0 (strbuf_puts junk field v)
                        (strbuf_write junk field (c ∷ v))
                      ∙ w.1)
                  ∙ more)),
        (refl, w.2),
      )

  pub take_value_none :
      (i : ℕ) (pre post : List (List ℕ)) (key : List ℕ) (member : Member) (field : Strbuf)
      (rec : Record)
      → HasLines lines (pre ++ key ∷ post)
      → i ≡ length pre
      → EndsValue post
      → Holds field []
      → Returns (Took (i + 1) rec) (take_value junk lines i member field rec)
  unfolding take_value
  take_value_none i pre post key member field rec h e ends hold =
      let split : pre ++ key ∷ post ≡ (pre ++ key ∷ []) ++ post =
        sym (append_assoc pre (key ∷ []) post) in
      let stops =
        value_loop_stops (suc lines.size) (i + 1) (pre ++ key ∷ []) post field
          (subst (HasLines lines) split h) (omega (arith, e, length-append pre (key ∷ []))) ends in
      let same : (i + 1 == i + 1) ≡ true = ground arith in
      ((i + 1, field, rec), rw (stops, same) refl, (refl, hold, refl))

  pub take_value_some :
      (i : ℕ) (pre post : List (List ℕ)) (key v : List ℕ) (member : Member) (field : Strbuf)
      (rec : Record)
      → HasLines lines (pre ++ key ∷ (v ∷ post))
      → i ≡ length pre
      → IsPlain v
      → NoNul v
      → length v < 2 ^ 53
      → EndsValue post
      → Holds field []
      → Returns (Took (i + 2) (set_member member v rec)) (take_value junk lines i member field rec)
  unfolding take_value
  take_value_some i pre post key v member field rec h e plain no_nul short ends hold =
      let split : pre ++ key ∷ (v ∷ post) ≡ (pre ++ key ∷ []) ++ v ∷ post =
        sym (append_assoc pre (key ∷ []) (v ∷ post)) in
      let r =
        value_loop_line lines.size (i + 1) (pre ++ key ∷ []) post v field
          (subst (HasLines lines) split h) (omega (arith, e, length-append pre (key ∷ []))) plain
          short ends hold in
      let d = detach_lem r.0.1 v r.2.1 in
      let moved : (r.0.0 == i + 1) ≡ false = ground (arith, r.2.0) in
      (
        (r.0.0, d.0.1, set_member member v rec),
        rw (r.1) (rw (moved) (rw (d.1) (rw (d.2.0) (rw (c_string-terminated v no_nul) refl)))),
        (omega (arith, r.2.0), d.2.1, refl),
      )
