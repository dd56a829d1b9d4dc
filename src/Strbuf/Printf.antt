-- ===== src/Strbuf/Printf.antt =====
-- `strbuf_vprintf`: when the text does not fit, it is printed again into a grown buffer.
use pass_keeper.Prelude.{
  ℕ, ◌+◌, ◌-◌, ◌≤◌, ◌<◌, ◌^◌, ◌≡◌, refl, ap, ◌∙◌, false, List, [], ◌∷◌, ◌++◌, append_assoc, Outcome,
  ok, ◌>>=◌, Returns, Returns-bind, Returns-map, if◌then◌else◌, ltb, leb, ◌==◌, length, take, drop,
  arith, length-append, length-drop, copy_to-append, Bool-cases, inl, inr, take_all, length-take,
}
use pass_keeper.Strbuf.{
  heap, Strbuf, copy_bytes, strbuf_grow, strbuf_size_avail, strbuf_addlen, vsnprintf_at,
  strbuf_vprintf,
}
use pass_keeper.Strbuf.Room.{Holds, HasRoom, grow_heap, HoldsIn-grow, HoldsIn-room}
use pass_keeper.Strbuf.Refines.{drop-cons, addlen_lem}

vsnprintf_at_lem :
    {n : ℕ} (sb : Strbuf) (t text : List ℕ) (r : HasRoom sb t n)
    → let put : List ℕ = take (length r.rest) text ++ 0 ∷ [] in
      vsnprintf_at sb text ≡ ok (heap (t ++ (put ++ drop (length put) (r.next ∷ r.rest))))
unfolding vsnprintf_at copy_bytes
vsnprintf_at_lem sb t text r =
    let put : List ℕ = take (length r.rest) text ++ 0 ∷ [] in
    let some_room : (sb.capacity - sb.length == 0) ≡ false = ground (arith, r.cap, r.size) in
    let all_of_it : sb.capacity - sb.length - 1 ≡ length r.rest = omega (arith, r.cap, r.size) in
    let fits : length put ≤ length (r.next ∷ r.rest) = omega (
      arith,
      length-append (take (length r.rest) text) (0 ∷ []),
      length-take (length r.rest) text,
    ) in
    rw
      (some_room, all_of_it, r.memory, copy_to-append t (r.next ∷ r.rest) put sb.length r.size fits)

-- What vsnprintf leaves: the whole text with its 0, or as much of it as there is room for.
vsnprintf_fits :
    {n : ℕ} (sb : Strbuf) (t text : List ℕ) (r : HasRoom sb t n)
    → length text ≤ length r.rest
    → (rest : List ℕ) × (vsnprintf_at sb text ≡ ok (heap ((t ++ text) ++ 0 ∷ rest)))
      × (sb.capacity ≡ length (t ++ text) + length rest + 1)
vsnprintf_fits sb t text r h =
    let rest = drop (length (text ++ 0 ∷ [])) (r.next ∷ r.rest) in
    let whole : take (length r.rest) text ≡ text = take_all text (length r.rest) h in
    let regroup : t ++ ((text ++ 0 ∷ []) ++ rest) ≡ (t ++ text) ++ 0 ∷ rest = simp append_assoc in
    (
      rest,
      vsnprintf_at_lem sb t text r
          ∙ ap
              (λ (put : List ℕ).
                ok (
                  heap (t ++ ((put ++ 0 ∷ []) ++ drop (length (put ++ 0 ∷ [])) (r.next ∷ r.rest)))))
              whole
          ∙ ap (λ b. ok (heap b)) regroup,
      omega (
        arith,
        r.cap,
        length-append t text,
        length-append text (0 ∷ []),
        length-drop (length (text ++ 0 ∷ [])) (r.next ∷ r.rest),
      ),
    )

vsnprintf_cut :
    {n : ℕ} (sb : Strbuf) (t text : List ℕ) (r : HasRoom sb t n)
    → length r.rest < length text
    → (next : ℕ) × (rest : List ℕ) × (vsnprintf_at sb text ≡ ok (heap (t ++ next ∷ rest)))
      × (length rest ≡ length r.rest)
vsnprintf_cut sb t text r h =
    let put : List ℕ = take (length r.rest) text ++ 0 ∷ [] in
    let whole = put ++ drop (length put) (r.next ∷ r.rest) in
    let size : length whole ≡ length r.rest + 1 = omega (
      arith,
      length-append put (drop (length put) (r.next ∷ r.rest)),
      length-drop (length put) (r.next ∷ r.rest),
      length-append (take (length r.rest) text) (0 ∷ []),
      length-take (length r.rest) text,
    ) in
    let (x, ys, e, left) = drop-cons 0 whole (omega arith) in
    (x, ys, vsnprintf_at_lem sb t text r ∙ ap (λ b. ok (heap (t ++ b))) e, omega arith)

print_fits :
    {n : ℕ} (sb : Strbuf) (t text : List ℕ) (r : HasRoom sb t n)
    → length text ≤ length r.rest
    → length t + length text < 2 ^ 54
    → Returns
        (λ sb'. Holds sb' (t ++ text))
        (do buf' ← vsnprintf_at sb text; strbuf_addlen (record sb { buf = buf' }) (length text))
print_fits sb t text r h small =
    let (rest, e, cap') = vsnprintf_fits sb t text r h in
    rw e (
      addlen_lem (record sb { buf = heap ((t ++ text) ++ 0 ∷ rest) }) (t ++ text) rest 0
        (length text) refl (omega (arith, length-append t text, r.size)) cap')

avail_lem :
    (sb : Strbuf) (n k : ℕ) → sb.length ≡ n → sb.capacity ≡ n + k + 1 → strbuf_size_avail sb ≡ k
unfolding strbuf_size_avail
avail_lem sb n k size full = ground arith

-- The buffer is full of what the first attempt printed, and grows for the second.
grow_full :
    (junk : ℕ) (sb : Strbuf) (t rest : List ℕ) (next n : ℕ)
    → sb.length ≡ length t
    → sb.capacity ≡ length t + length rest + 1
    → length t + n < 2 ^ 55
    → length rest < n
    → Returns
        (λ more. HasRoom more t n)
        (strbuf_grow junk (record sb { buf = heap (t ++ next ∷ rest) }) n)
grow_full junk sb t rest next n size full small less =
    let same : record sb { buf = heap (t ++ next ∷ rest) } ≡ record {
      buf = heap (t ++ next ∷ rest);
      length = length t;
      capacity = length t + length rest + 1;
    } =
      λ i. record { buf = heap (t ++ next ∷ rest); length = size i; capacity = full i } in
    rw same (grow_heap junk next t rest n small less)

-- The two attempts of `strbuf_vprintf`, once there is room for one byte.
abbrev attempts : ℕ → Strbuf → List ℕ → Outcome Strbuf
attempts junk sb text = do
  buf' ← vsnprintf_at sb text
  let written = record sb { buf = buf' }
  (if ltb (strbuf_size_avail written) (length text)
      then (do
        more ← strbuf_grow junk written (length text)
        buf'' ← vsnprintf_at more text
        strbuf_addlen (record more { buf = buf'' }) (length text))
      else strbuf_addlen written (length text))

attempts_lem :
    (junk : ℕ) (sb : Strbuf) (t text : List ℕ)
    → HasRoom sb t 1
    → length t + length text < 2 ^ 54
    → Returns (λ sb'. Holds sb' (t ++ text)) (attempts junk sb text)
attempts_lem junk sb t text r small = elim (Bool-cases (ltb (length r.rest) (length text))) [
  | inr roomy ↦
      let (rest, e, full) = vsnprintf_fits sb t text r (ground arith) in
      let written = record sb { buf = heap ((t ++ text) ++ 0 ∷ rest) } in
      rw (e, avail_lem written (length t) (length r.rest) r.size r.cap, roomy)
        (addlen_lem written (t ++ text) rest 0 (length text) refl
          (omega (arith, length-append t text, r.size)) full)
  | inl tight ↦
      let less : length r.rest < length text = ground arith in
      let (x, ys, e, same) = vsnprintf_cut sb t text r less in
      let written = record sb { buf = heap (t ++ x ∷ ys) } in
      rw (e, avail_lem written (length t) (length r.rest) r.size r.cap, tight)
        (Returns-bind (strbuf_grow junk written (length text)) _
          (grow_full junk sb t ys x (length text) r.size (omega (arith, r.cap)) (omega arith)
            (omega arith))
          (λ more r'. print_fits more t text r' r'.room small))
]

first_room :
    (junk : ℕ) (sb : Strbuf) (t : List ℕ)
    → Holds sb t
    → length t < 2 ^ 54
    → Returns
        (λ sb'. HasRoom sb' t 1)
        (if strbuf_size_avail sb == 0 then strbuf_grow junk sb 64 else ok sb)
first_room junk sb t hold small = elim (Bool-cases (strbuf_size_avail sb == 0)) [
  | inl full ↦ rw full (
      Returns-map
        (HoldsIn-grow junk sb.buf sb.length sb.capacity t 64 hold (omega arith) (omega arith)
          (ground arith))
        (λ sb' r. record {
          next = r.next;
          rest = r.rest;
          memory = r.memory;
          size = r.size;
          cap = r.cap;
          room = omega (arith, r.room);
        }))
  | inr room ↦
      rw room
        (sb, refl, HoldsIn-room sb.buf sb.length sb.capacity t 1 hold (omega arith) (ground arith))
]

-- `strbuf_printf` appends the formatted text, of fewer than 2 ^ 31 bytes.
pub printf_lem :
    (junk : ℕ) (sb : Strbuf) (t text : List ℕ)
    → Holds sb t
    → length t < 2 ^ 53
    → length text < 2 ^ 31
    → Returns (λ sb'. Holds sb' (t ++ text)) (strbuf_vprintf junk sb text)
unfolding strbuf_vprintf
printf_lem junk sb t text hold small short =
    let int : leb (2 ^ 31) (length text) ≡ false = ground arith in
    rw int (
      Returns-bind (if strbuf_size_avail sb == 0 then strbuf_grow junk sb 64 else ok sb)
        (λ sb1. attempts junk sb1 text) (first_room junk sb t hold (omega arith))
        (λ sb1 r. attempts_lem junk sb1 t text r (omega arith)))
