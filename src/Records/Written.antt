-- ===== src/Records/Written.antt =====
-- src/handle-record.c: the text that format_recfile_content answers.
use pass_keeper.Prelude.{
  ℕ, ◌+◌, ◌^◌, ◌<◌, ◌≡◌, refl, sym, ap, subst, ◌∙◌, Bool, true, false, not, List, [], ◌∷◌, ◌++◌,
  append-nil, append_assoc, Option, none, some, bugged, Returns, Returns-bind, if◌then◌else◌,
  if_not, ◌==◌, length, length-append, take, arith,
}
use pass_keeper.Text.{is_blank_str}
use pass_keeper.Strbuf.{
  Strbuf, Buffer, null, defbuf, heap, init, cells, strbuf_puts, strbuf_putchar,
}
use pass_keeper.Strbuf.Room.{Holds, HoldsIn}
use pass_keeper.Strbuf.Refines.{putchar_lem, puts_lem}
use pass_keeper.Filesys.Names.{HoldsIn-text}
use pass_keeper.Records.{
  Record, Member, members, get_member, put_value, put_members, format_recfile_content,
}

-- The line of a value, or an empty one.
abbrev pub shown : Option (List ℕ) → List ℕ
shown none = []
shown (some v) = if not (is_blank_str (some v)) then v else []

-- An id, the value's line, and an empty line.
abbrev pub text_of_member : List ℕ → Option (List ℕ) → List ℕ
text_of_member key value = (key ++ b'\n' ∷ []) ++ ((shown value ++ b'\n' ∷ []) ++ b'\n' ∷ [])

abbrev pub text_of : Record → List (List ℕ × Member) → List ℕ
text_of rec [] = []
text_of rec (f ∷ fs) = text_of_member f.0 (get_member f.1 rec) ++ text_of rec fs

put_value_lem :
    (junk : ℕ) (sb : Strbuf) (t : List ℕ) (value : Option (List ℕ))
    → Holds sb t
    → length t + length (shown value) < 2 ^ 53
    → Returns (λ sb'. Holds sb' (t ++ (shown value ++ b'\n' ∷ []))) (put_value junk sb value)
unfolding put_value
put_value_lem junk sb t none hold h = putchar_lem junk sb t b'\n' hold (omega arith)
put_value_lem junk sb t (some v) hold h = go (not (is_blank_str (some v))) h
  where
    go :
        (b : Bool)
        → length t + length (if b then v else []) < 2 ^ 53
        → Returns
            (λ sb'. Holds sb' (t ++ ((if b then v else []) ++ b'\n' ∷ [])))
            (if b then strbuf_puts junk sb v else strbuf_putchar junk sb b'\n')
    go true h = puts_lem junk sb t v hold h
    go false h = putchar_lem junk sb t b'\n' hold (omega arith)

put_members_lem :
    (junk : ℕ) (rec : Record) (fs : List (List ℕ × Member)) (sb : Strbuf) (t : List ℕ)
    → Holds sb t
    → length t + length (text_of rec fs) < 2 ^ 53
    → Returns (λ sb'. Holds sb' (t ++ text_of rec fs)) (put_members junk rec fs sb)
unfolding put_members
put_members_lem junk rec [] sb t hold h = (sb, refl, subst (Holds sb) (sym (append-nil t)) hold)
put_members_lem junk rec (f ∷ fs) sb t hold h =
    let key : List ℕ = f.0 ++ b'\n' ∷ [] in
    let line : List ℕ = shown (get_member f.1 rec) ++ b'\n' ∷ [] in
    let n1 = length-append f.0 (b'\n' ∷ []) in
    let n2 = length-append (shown (get_member f.1 rec)) (b'\n' ∷ []) in
    let n3 = length-append line (b'\n' ∷ []) in
    let n4 = length-append key (line ++ b'\n' ∷ []) in
    let n5 = length-append (text_of_member f.0 (get_member f.1 rec)) (text_of rec fs) in
    let m1 = length-append t key in
    let m2 = length-append (t ++ key) line in
    let m3 = length-append ((t ++ key) ++ line) (b'\n' ∷ []) in
    let whole : (((t ++ key) ++ line) ++ b'\n' ∷ []) ++ text_of rec fs ≡ t ++ text_of rec (f ∷ fs) =
      ap (◌++ text_of rec fs)
        (append_assoc (t ++ key) line (b'\n' ∷ []) ∙ append_assoc t key (line ++ b'\n' ∷ []))
      ∙ append_assoc t (text_of_member f.0 (get_member f.1 rec)) (text_of rec fs) in
    Returns-bind (strbuf_puts junk sb f.0) _
      (puts_lem junk sb t f.0 hold (omega (arith, n1, n4, n5)))
      (λ keyed h1.
        Returns-bind (put_value junk keyed (get_member f.1 rec)) _
          (put_value_lem junk keyed (t ++ key) (get_member f.1 rec) h1
            (omega (arith, n1, n2, n3, n4, n5, m1)))
          (λ valued h2.
            Returns-bind (strbuf_putchar junk valued b'\n') _
              (putchar_lem junk valued ((t ++ key) ++ line) b'\n' h2
                (omega (arith, n1, n2, n3, n4, n5, m1, m2)))
              (λ closed h3.
                subst (λ u. Returns (λ sb'. Holds sb' u) (put_members junk rec fs closed)) whole
                  (put_members_lem junk rec fs closed (((t ++ key) ++ line) ++ b'\n' ∷ []) h3
                    (omega (arith, n1, n2, n3, n4, n5, m1, m2, m3))))))

-- The text of a record, and the message.
abbrev pub whole_text : List ℕ → Record → List ℕ
whole_text message rec = text_of rec members ++ (message ++ b'\n' ∷ [])

nonempty_lem :
    (b : Buffer) (len size : ℕ) (t : List ℕ)
    → HoldsIn b len size t
    → 0 < length t
    → (len == 0) ≡ false
nonempty_lem null len size t hold h = absurd hold
nonempty_lem defbuf len size t hold h = absurd (omega (arith, ap length hold.0))
nonempty_lem (heap b) len size t hold h = ground (arith, hold.2)

pub format_recfile_lem :
    (junk : ℕ) (message : List ℕ) (rec : Record)
    → length (whole_text message rec) < 2 ^ 53
    → Returns (λ text. text ≡ whole_text message rec) (format_recfile_content junk message rec)
unfolding format_recfile_content
format_recfile_lem junk message rec h =
    let total = length-append (text_of rec members) (message ++ b'\n' ∷ []) in
    let tail = length-append message (b'\n' ∷ []) in
    Returns-bind (put_members junk rec members init) _
      (put_members_lem junk rec members init [] (refl, refl, refl) (omega (arith, total)))
      (λ sb hold.
        Returns-bind (strbuf_puts junk sb message) _
          (puts_lem junk sb (text_of rec members) message hold (omega (arith, total, tail)))
          (λ whole held. (
            take whole.length (cells whole.buf),
            if_not (whole.length == 0)
                (nonempty_lem whole.buf whole.length whole.capacity (whole_text message rec) held
                  (omega (arith, total, tail)))
                bugged _,
            HoldsIn-text whole.buf whole.length whole.capacity (whole_text message rec) held,
          )))
