-- ===== src/Strbuf/Refines.antt =====
-- Each operation on the buffer, as an operation on its text.
use pass_keeper.Prelude.{
  ℕ, zero, suc, ◌+◌, ◌-◌, ◌≤◌, ◌<◌, ◌^◌, ◌≡◌, refl, sym, ap, ◌∙◌, false, List, [], ◌∷◌, ◌++◌,
  append_assoc, append-nil, Outcome, ok, ◌>>=◌, Returns, Returns-bind, Returns-map, subst,
  if◌then◌else◌, ltb, ◌==◌, length, drop, wrap, arith, length-append, store-append, copy_to-append,
}
use pass_keeper.Strbuf.{
  Buffer, null, defbuf, heap, Strbuf, store_byte, copy_bytes, is_defbuf, strbuf_grow,
  strbuf_size_avail, strbuf_setlen, strbuf_addlen, strbuf_putchar, strbuf_write, strbuf_puts,
}
use pass_keeper.Strbuf.Room.{HoldsIn, Holds, HasRoom, make_room}

module _ {ℓ} {A : Type ℓ} where
  pub drop-cons :
      (n : ℕ) (xs : List A)
      → n < length xs
      → (x : A) × (ys : List A) × (drop n xs ≡ x ∷ ys) × (length ys + n + 1 ≡ length xs)
  drop-cons n [] h = absurd (omega arith)
  drop-cons zero (x ∷ xs) h = (x, xs, refl, omega arith)
  drop-cons (suc n) (x ∷ xs) h =
      let (y, ys, e, size) = drop-cons n xs (omega arith) in (y, ys, e, omega arith)

-- What a copy of `s` behind the text leaves.
record IsCopied (sb : Strbuf) (t s : List ℕ) (result : Outcome Buffer) : Type 0 where
  next : ℕ
  rest : List ℕ
  returns : result ≡ ok (heap ((t ++ s) ++ next ∷ rest))
  cap : sb.capacity ≡ length (t ++ s) + length rest + 1

copy_bytes-IsCopied :
    {n : ℕ} (sb : Strbuf) (t s : List ℕ) (r : HasRoom sb t n)
    → length s ≤ length r.rest
    → IsCopied sb t s (copy_bytes sb.buf sb.length s)
unfolding copy_bytes
copy_bytes-IsCopied sb t s r h =
    let (x, ys, e, size) = drop-cons (length s) (r.next ∷ r.rest) (omega arith) in
    record {
      next = x;
      rest = ys;
      returns = rw (
        r.memory,
        copy_to-append t (r.next ∷ r.rest) s sb.length r.size (omega arith),
        e,
        append_assoc t s (x ∷ ys),
      );
      cap = omega (arith, r.cap, length-append t s);
    }

-- The length is set, and the 0 behind the text.
pub addlen_lem :
    (sb : Strbuf) (u rest : List ℕ) (next n : ℕ)
    → sb.buf ≡ heap (u ++ next ∷ rest)
    → wrap (sb.length + n) ≡ length u
    → sb.capacity ≡ length u + length rest + 1
    → Returns (λ sb'. Holds sb' u) (strbuf_addlen sb n)
unfolding strbuf_addlen strbuf_setlen is_defbuf store_byte
addlen_lem sb u rest next n memory size full = (
  record sb { buf = heap (u ++ 0 ∷ rest); length = length u },
  rw (memory, size, store-append u rest next 0 (length u) refl),
  (rest, refl, refl, full),
)

store_two :
    (sb : Strbuf) (t : List ℕ) (c : ℕ)
    → HasRoom sb t 1
    → Returns
        (λ sb'. Holds sb' (t ++ c ∷ []))
        (do
          buf' ← store_byte sb.buf sb.length c
          buf'' ← store_byte buf' (sb.length + 1) 0
          ok (record sb { buf = buf''; length = sb.length + 1 }))
unfolding store_byte
store_two sb t c r =
    let (x, ys, e, size) = drop-cons 0 r.rest r.room in
    let grown : length (t ++ c ∷ []) ≡ length t + 1 = length-append t (c ∷ []) in
    (
      record sb { buf = heap ((t ++ c ∷ []) ++ 0 ∷ ys); length = sb.length + 1 },
      rw (
        r.memory,
        e,
        store-append t (x ∷ ys) r.next c sb.length r.size,
        ← append_assoc t (c ∷ []) (x ∷ ys),
        store-append (t ++ c ∷ []) ys x 0 (sb.length + 1) (omega (arith, r.size)),
      ),
      (ys, refl, omega (arith, r.size), omega (arith, r.cap)),
    )

-- `strbuf_putchar` appends one byte.
pub putchar_lem :
    (junk : ℕ) (sb : Strbuf) (t : List ℕ) (c : ℕ)
    → Holds sb t
    → length t < 2 ^ 54
    → Returns (λ sb'. Holds sb' (t ++ c ∷ [])) (strbuf_putchar junk sb c)
unfolding strbuf_putchar
putchar_lem junk sb t c hold h =
    Returns-bind (if strbuf_size_avail sb == 0 then strbuf_grow junk sb 1 else ok sb) _
      (make_room junk sb t 1 _ hold (omega arith) (omega arith) (ground arith))
      (λ sb1 r. store_two sb1 t c r)

copy_addlen :
    (sb : Strbuf) (t s : List ℕ) (n : ℕ)
    → HasRoom sb t n
    → n ≡ length s
    → length t + length s < 2 ^ 54
    → Returns
        (λ sb'. Holds sb' (t ++ s))
        (do buf' ← copy_bytes sb.buf sb.length s; strbuf_addlen (record sb { buf = buf' }) n)
copy_addlen sb t s n r e h =
    let copied = copy_bytes-IsCopied sb t s r (omega (arith, r.room)) in
    rw copied.returns (
      addlen_lem (record sb { buf = heap ((t ++ s) ++ copied.next ∷ copied.rest) }) (t ++ s)
        copied.rest copied.next n refl (omega (arith, length-append t s, r.size)) copied.cap)

write_nothing :
    (b : Buffer) (len size : ℕ) (t : List ℕ)
    → HoldsIn b len size t
    → length t < 2 ^ 54
    → Returns
        (λ sb'. Holds sb' t)
        (do
          buf' ← copy_bytes b len []
          strbuf_addlen (record { buf = buf'; length = len; capacity = size }) 0)
unfolding copy_bytes strbuf_addlen strbuf_setlen is_defbuf
write_nothing null len size t hold h = absurd hold
write_nothing defbuf len size t (et, el, es) h =
    (record { buf = defbuf; length = 0; capacity = size }, rw el, (et, refl, es))
write_nothing (heap b) len size t (rest, eb, el, es) h =
    let r : HasRoom (record { buf = heap b; length = len; capacity = size }) t 0 = record {
      next = 0;
      rest = rest;
      memory = ap heap eb;
      size = el;
      cap = es;
      room = omega arith;
    } in
    Returns-map
      (copy_addlen (record { buf = heap b; length = len; capacity = size }) t [] 0 r refl
        (omega arith))
      (λ sb' held. subst (Holds sb') (append-nil t) held)

-- `strbuf_write` appends the bytes that it is given.
pub write_lem :
    (junk : ℕ) (sb : Strbuf) (t s : List ℕ)
    → Holds sb t
    → length t + length s < 2 ^ 54
    → Returns (λ sb'. Holds sb' (t ++ s)) (strbuf_write junk sb s)
unfolding strbuf_write
write_lem junk sb t [] hold h =
    let enough : ltb (strbuf_size_avail sb) 0 ≡ false = ground arith in
    rw (enough, append-nil) (write_nothing sb.buf sb.length sb.capacity t hold (omega arith))
write_lem junk sb t (c ∷ s) hold h =
    Returns-bind
      (if ltb (strbuf_size_avail sb) (length (c ∷ s))
        then strbuf_grow junk sb (length (c ∷ s))
        else ok sb)
      _ (make_room junk sb t (length (c ∷ s)) _ hold (omega arith) (omega arith) refl)
      (λ sb1 r. copy_addlen sb1 t (c ∷ s) (length (c ∷ s)) r refl h)

puts_room :
    (sb : Strbuf) (t s : List ℕ)
    → HasRoom sb t (length s + 1)
    → length t + length s < 2 ^ 53
    → Returns
        (λ sb'. Holds sb' (t ++ (s ++ b'\n' ∷ [])))
        (do
          buf' ← copy_bytes sb.buf sb.length s
          buf'' ← store_byte buf' (sb.length + (length s + 1 - 1)) b'\n'
          strbuf_addlen (record sb { buf = buf'' }) (length s + 1))
unfolding store_byte
puts_room sb t s r h =
    let copied = copy_bytes-IsCopied sb t s r (omega (arith, r.room)) in
    let size : length (t ++ s) ≡ length t + length s = length-append t s in
    let (x, ys, e, left) = drop-cons 0 copied.rest (omega (arith, copied.cap, r.cap, r.room)) in
    let line = (t ++ s) ++ b'\n' ∷ [] in
    let longer : length line ≡ length (t ++ s) + 1 = length-append (t ++ s) (b'\n' ∷ []) in
    rw
      (
        copied.returns,
        store-append (t ++ s) copied.rest copied.next b'\n' (sb.length + (length s + 1 - 1))
            (omega (arith, r.size)),
        ← append_assoc t s (b'\n' ∷ []),
      )
      (addlen_lem (record sb { buf = heap ((t ++ s) ++ b'\n' ∷ copied.rest) }) line ys x
        (length s + 1)
        (ap (λ more. heap ((t ++ s) ++ b'\n' ∷ more)) e
          ∙ ap heap (sym (append_assoc (t ++ s) (b'\n' ∷ []) (x ∷ ys))))
        (omega (arith, r.size)) (omega (arith, copied.cap)))

-- `strbuf_puts` appends the bytes and a newline.
pub puts_lem :
    (junk : ℕ) (sb : Strbuf) (t s : List ℕ)
    → Holds sb t
    → length t + length s < 2 ^ 53
    → Returns (λ sb'. Holds sb' (t ++ (s ++ b'\n' ∷ []))) (strbuf_puts junk sb s)
unfolding strbuf_puts
puts_lem junk sb t s hold h =
    Returns-bind
      (if ltb (strbuf_size_avail sb) (length s + 1)
        then strbuf_grow junk sb (length s + 1)
        else ok sb)
      _ (make_room junk sb t (length s + 1) _ hold (omega arith) (omega arith) refl)
      (λ sb1 r. puts_room sb1 t s r h)
