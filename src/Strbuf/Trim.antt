-- ===== src/Strbuf/Trim.antt =====
-- `strbuf_trim_end`, `strbuf_trunc`, `strbuf_detach` and `strbuf_from_buf`.
use pass_keeper.Prelude.{
  ℕ, zero, suc, ◌+◌, ◌<◌, ◌^◌, ◌≡◌, refl, sym, ap, ◌∙◌, true, false, List, [], ◌∷◌, ◌++◌,
  append_assoc, append-nil, ok, bugged, Returns, ◌==◌, length, arith, length-append, Bool-cases,
  inl, inr, ◌⊎◌, load-append, store-append, copy_from, copy_from-append, some, ◌≢◌,
}
use pass_keeper.Strbuf.{
  Buffer, null, defbuf, heap, Strbuf, cells, store_byte, isspace, trim_loop, strbuf_trim_end,
  strbuf_trunc, strbuf_detach, strlen, strbuf_from_buf, is_null,
}
use pass_keeper.Strbuf.Room.{HoldsIn, Holds, HasRoom, grow_heap}

abbrev pub AllSpace : List ℕ → Type 0
AllSpace [] = Unit
AllSpace (c ∷ s) = (isspace c ≡ true) × AllSpace s

AllSpace-append : (s t : List ℕ) → AllSpace s → AllSpace t → AllSpace (s ++ t)
AllSpace-append [] t p q = q
AllSpace-append (c ∷ s) t p q = (p.0, AllSpace-append s t p.1 q)

-- `kept` is `t` less the white space at its end.
pub record IsTrimmed (t kept : List ℕ) : Type 0 where
  pub blanks : List ℕ
  pub split : t ≡ kept ++ blanks
  pub spaces : AllSpace blanks
  pub last :
      (kept ≡ []) ⊎ ((init : List ℕ) × (c : ℕ) × (kept ≡ init ++ c ∷ []) × (isspace c ≡ false))

snoc-cases :
    (t : List ℕ) (n : ℕ)
    → length t ≡ suc n
    → (u : List ℕ) × (c : ℕ) × (t ≡ u ++ c ∷ []) × (length u ≡ n)
snoc-cases [] n h = absurd (omega arith)
snoc-cases (x ∷ []) n h = ([], x, refl, omega arith)
snoc-cases (x ∷ y ∷ t) zero h = absurd (omega arith)
snoc-cases (x ∷ y ∷ t) (suc n) h =
    let (u, c, e, size) = snoc-cases (y ∷ t) n (omega arith) in
    (x ∷ u, c, ap (◌∷◌ x) e, omega arith)

trim_loop_lem :
    (n : ℕ) (t more : List ℕ)
    → length t ≡ n
    → (kept : List ℕ) × (trim_loop (t ++ more) n ≡ ok (length kept)) × IsTrimmed t kept
unfolding trim_loop
trim_loop_lem zero [] more h =
    ([], refl, record { blanks = []; split = refl; spaces = tt; last = inl refl })
trim_loop_lem zero (c ∷ t) more h = absurd (omega arith)
trim_loop_lem (suc n) t more h = step (snoc-cases t n h) (trim_loop_lem n)
  where
    step :
        (u : List ℕ) × (c : ℕ) × (t ≡ u ++ c ∷ []) × (length u ≡ n)
        → ((s more' : List ℕ)
            → length s ≡ n
            → (kept : List ℕ) × (trim_loop (s ++ more') n ≡ ok (length kept)) × IsTrimmed s kept)
        → (kept : List ℕ) × (trim_loop (t ++ more) (suc n) ≡ ok (length kept)) × IsTrimmed t kept
    step (u, c, e, size) rec =
        let here : t ++ more ≡ u ++ c ∷ more =
          ap (λ v. v ++ more) e ∙ append_assoc u (c ∷ []) more in
        let (kept, run, trimmed) = rec u (c ∷ more) size in
        elim (Bool-cases (isspace c)) [
          | inl space ↦ (
            kept,
            ap (λ v. trim_loop v (suc n)) here
                ∙ rw (load-append u more c n (omega arith), space) run,
            record {
              blanks = trimmed.blanks ++ c ∷ [];
              split =
                  e
                  ∙ ap (λ v. v ++ c ∷ []) trimmed.split
                  ∙ append_assoc kept trimmed.blanks (c ∷ []);
              spaces = AllSpace-append trimmed.blanks (c ∷ []) trimmed.spaces (space, tt);
              last = trimmed.last;
            },
          )
          | inr other ↦ (
            u ++ c ∷ [],
            ap (λ v. trim_loop v (suc n)) here
                ∙ rw (load-append u more c n (omega arith), other)
                    (ap ok (omega (arith, length-append u (c ∷ [])))),
            record {
              blanks = [];
              split = e ∙ sym (append-nil (u ++ c ∷ []));
              spaces = tt;
              last = inr (u, c, refl, other);
            },
          )
        ]

ends_somewhere :
    (s rest : List ℕ)
    → (x : ℕ) × (more : List ℕ) × (s ++ 0 ∷ rest ≡ x ∷ more)
      × (length more ≡ length s + length rest)
ends_somewhere [] rest = (0, rest, refl, omega arith)
ends_somewhere (c ∷ s) rest = (c, s ++ 0 ∷ rest, refl, omega (arith, length-append s (0 ∷ rest)))

trim_in :
    (b : Buffer) (len size : ℕ) (t : List ℕ)
    → HoldsIn b len size t
    → (kept : List ℕ) × IsTrimmed t kept
      × Returns
          (λ sb'. Holds sb' kept)
          (strbuf_trim_end (record { buf = b; length = len; capacity = size }))
unfolding strbuf_trim_end cells store_byte trim_loop
trim_in null len size t hold = absurd hold
trim_in defbuf len size t (et, el, es) = (
  [],
  record { blanks = []; split = et; spaces = tt; last = inl refl },
  (record { buf = defbuf; length = 0; capacity = size }, rw el, (refl, refl, es)),
)
trim_in (heap b) len size t (rest, eb, el, es) =
    let (kept, run, trimmed) = trim_loop_lem len t (0 ∷ rest) (sym el) in
    let cut : t ++ 0 ∷ rest ≡ kept ++ (trimmed.blanks ++ 0 ∷ rest) =
      ap (λ v. v ++ 0 ∷ rest) trimmed.split ∙ append_assoc kept trimmed.blanks (0 ∷ rest) in
    let (x, more, e, size') = ends_somewhere trimmed.blanks rest in
    (
      kept,
      trimmed,
      (
        record { buf = heap (kept ++ 0 ∷ more); length = length kept; capacity = size },
        rw (eb, run, cut, e, store-append kept more x 0 (length kept) refl),
        (
          more,
          refl,
          refl,
          omega (arith, es, ap length trimmed.split, length-append kept trimmed.blanks),
        ),
      ),
    )

-- strbuf_trim_end removes exactly the trailing white space and keeps the buffer well formed.
pub trim_end_lem :
    (sb : Strbuf) (t : List ℕ)
    → Holds sb t
    → (kept : List ℕ) × IsTrimmed t kept × Returns (λ sb'. Holds sb' kept) (strbuf_trim_end sb)
unfolding strbuf_trim_end
trim_end_lem sb t hold = trim_in sb.buf sb.length sb.capacity t hold

trunc_in :
    (b : Buffer) (len size : ℕ) (t : List ℕ)
    → HoldsIn b len size t
    → Returns
        (λ sb'. Holds sb' [])
        (strbuf_trunc (record { buf = b; length = len; capacity = size }))
unfolding strbuf_trunc store_byte
trunc_in null len size t hold = absurd hold
trunc_in defbuf len size t (et, el, es) =
    (record { buf = defbuf; length = 0; capacity = size }, refl, (refl, refl, es))
trunc_in (heap b) len size t (rest, eb, el, es) =
    let (x, more, e, size') = ends_somewhere t rest in
    (
      record { buf = heap (0 ∷ more); length = 0; capacity = size },
      rw (eb, e, store-append [] more x 0 0 refl),
      (more, refl, refl, omega arith),
    )

-- `strbuf_trunc` leaves the empty text.
pub trunc_lem :
    (sb : Strbuf) (t : List ℕ) → Holds sb t → Returns (λ sb'. Holds sb' []) (strbuf_trunc sb)
trunc_lem sb t hold = trunc_in sb.buf sb.length sb.capacity t hold

copy_of :
    (b : Buffer) (len size : ℕ) (t : List ℕ)
    → HoldsIn b len size t
    → copy_from (cells b) 0 (len + 1) ≡ ok (t ++ 0 ∷ [])
unfolding cells
copy_of null len size t hold = absurd hold
copy_of defbuf len size t (et, el, es) = rw (et, el) (copy_from-append [] (0 ∷ []) [] 0 1 refl refl)
copy_of (heap b) len size t (rest, eb, el, es) =
    rw (eb, el, ← append_assoc t (0 ∷ []) rest)
      (copy_from-append [] (t ++ 0 ∷ []) rest 0 (length t + 1) refl
        (omega (arith, length-append t (0 ∷ []))))

-- strbuf_detach copies the text out with its NUL and leaves the empty text.
pub detach_lem :
    (sb : Strbuf) (t : List ℕ)
    → Holds sb t
    → Returns (λ r. (r.0 ≡ t ++ 0 ∷ []) × Holds r.1 []) (strbuf_detach sb)
unfolding strbuf_detach
detach_lem sb t hold =
    let (sb', run, empty) = trunc_lem sb t hold in
    ((t ++ 0 ∷ [], sb'), rw (copy_of sb.buf sb.length sb.capacity t hold, run), (refl, empty))

-- A byte of a C string.
abbrev pub NoZero : List ℕ → Type 0
NoZero [] = Unit
NoZero (c ∷ s) = (c ≢ 0) × NoZero s

pub strlen_lem : (s rest : List ℕ) → NoZero s → strlen (s ++ 0 ∷ rest) ≡ ok (length s)
unfolding strlen
strlen_lem [] rest h = refl
strlen_lem (c ∷ s) rest h =
    let more : (c == 0) ≡ false = ground (arith, h.0) in
    rw (more, strlen_lem s rest h.1) (ap ok (omega arith))

is_null_ne : (b : Buffer) → b ≢ null → is_null b ≡ false
unfolding is_null
is_null_ne null ne = absurd (ne refl)
is_null_ne defbuf ne = refl
is_null_ne (heap b) ne = refl

-- strbuf_from_buf takes over a C string of fewer than 2^54 characters and makes room for 64 more
-- when the buffer is null, and exits by bug() when it is not.
pub from_buf_lem :
    (junk : ℕ) (sb : Strbuf) (s : List ℕ)
    → NoZero s
    → length s < 2 ^ 54
    → (sb.buf ≡ null
        → Returns (λ sb'. HasRoom sb' s 64) (strbuf_from_buf junk sb (some (s ++ 0 ∷ []))))
      × (sb.buf ≢ null → strbuf_from_buf junk sb (some (s ++ 0 ∷ [])) ≡ bugged)
unfolding strbuf_from_buf is_null
from_buf_lem junk sb s ok_bytes h =
    let size : length s + 1 ≡ length s + length {A = ℕ} [] + 1 = omega arith in
    (
      λ e.
          rw (e, strlen_lem s [] ok_bytes, size)
            (grow_heap junk 0 s [] 64 (omega arith) (omega arith)),
      λ ne. rw (is_null_ne sb.buf ne),
    )
