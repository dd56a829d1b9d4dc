-- ===== src/Cipher/Applied.antt =====
-- src/cipher-config.c: the SQL that applies the settings.
use pass_keeper.Prelude.{
  ℕ, zero, suc, ◌+◌, ◌-◌, ◌/◌, ◌%◌, ◌^◌, ◌≤◌, ◌<◌, ◌≡◌, ◌≢◌, refl, sym, ap, subst, ◌∙◌, Bool, true,
  false, List, [], ◌∷◌, ◌++◌, append-nil, append_assoc, Option, none, some, Outcome, ok, ◌>>=◌,
  Returns, Returns-bind, if◌then◌else◌, if_not, ◌==◌, length, length-append, take, arith,
}
use pass_keeper.Strbuf.{Strbuf, Buffer, null, defbuf, heap, init, cells, strbuf_vprintf}
use pass_keeper.Strbuf.Room.{Holds, HoldsIn}
use pass_keeper.Strbuf.Printf.{printf_lem}
use pass_keeper.Filesys.Names.{HoldsIn-text}
use pass_keeper.Cipher.{CipherConfig, default_compatibility, default_page_size, default_kdf_iter}
use pass_keeper.Cipher.Sql.{
  digits, print_d, pragma, kdf_name, hmac_name, iter_name, page_name, compat_name, apply_algorithm,
  apply_number, apply_settings, format_apply_cc_sqlstr,
}
use pass_keeper.Cipher.Written.{PointsTo}

length-digits : (fuel n : ℕ) (acc : List ℕ) → length (digits fuel n acc) ≤ fuel + length acc
unfolding digits
length-digits zero n acc = omega arith
length-digits (suc fuel) n acc =
    elim (n / 10 == 0)
      as (λ b.
        length (elim b [
          | true ↦ (b'0' + n % 10) ∷ acc
          | false ↦ digits fuel (n / 10) ((b'0' + n % 10) ∷ acc)
        ])
        ≤ suc fuel + length acc) [
          | true ↦ omega arith
          | false ↦ omega (arith, length-digits fuel (n / 10) ((b'0' + n % 10) ∷ acc))
        ]

length-print_d : (n : ℕ) → length (print_d n) ≤ 11
unfolding print_d
length-print_d n = ground (arith, length-digits 10 n [], length-digits 10 (2 ^ 32 - n) [])

-- The text of the buffer, which has no memory of its own before the first print.
abbrev Printed : List ℕ → Strbuf → Type 0
Printed t sb = Holds sb t × (t ≡ [] → sb.capacity ≡ 0)

-- A call that prints `text`, or nothing.
abbrev Prints : (Strbuf → Outcome Strbuf) → List ℕ → Type 0
Prints call text =
    (t : List ℕ) (sb : Strbuf)
    → Printed t sb
    → length t + length text < 2 ^ 53
    → Returns (Printed (t ++ text)) (call sb)

Prints-none : Prints (λ sb. ok sb) []
Prints-none t sb h k = (sb, refl, subst (λ u. Printed u sb) (sym (append-nil t)) h)

append-ne : (t u : List ℕ) (c : ℕ) → t ++ c ∷ u ≢ []
append-ne [] u c e = cc
append-ne (x ∷ t) u c e = cc

print_pragma :
    (junk : ℕ) (name value : List ℕ)
    → length name + length value < 2 ^ 30
    → Prints (λ sb. strbuf_vprintf junk sb (pragma name value)) (pragma name value)
unfolding pragma
print_pragma junk name value h t sb p k =
    let size = length-append name (b' ' ∷ b'=' ∷ b' ' ∷ (value ++ b';' ∷ [])) in
    let size' = length-append value (b';' ∷ []) in
    let r =
      printf_lem junk sb t (pragma name value) p.0 (omega arith) (omega (arith, size, size')) in
    (r.0, r.1, (r.2, λ e. absurd (append-ne t _ b'P' e)))

-- What stands for a setting in the SQL.
abbrev pub algorithm_sql : List ℕ → Option (List ℕ) → List ℕ
algorithm_sql name none = []
algorithm_sql name (some str) = pragma name str

abbrev pub number_sql : List ℕ → (default n : ℕ) → List ℕ
number_sql name default n = if n == default then [] else pragma name (print_d n)

-- The pointer is null for no text.
abbrev pub or_null : List ℕ → Option (List ℕ)
or_null [] = none
or_null (c ∷ text) = some (c ∷ text)

Prints-if :
    (b : Bool) (f g : Strbuf → Outcome Strbuf) (u v : List ℕ)
    → Prints f u
    → Prints g v
    → Prints (λ sb. if b then f sb else g sb) (if b then u else v)
Prints-if true f g u v h k = h
Prints-if false f g u v h k = k

Prints-then :
    (f g : Strbuf → Outcome Strbuf) (u v : List ℕ)
    → Prints f u
    → Prints g v
    → Prints (λ sb. f sb >>= g) (u ++ v)
Prints-then f g u v h k t sb p small =
    let size = length-append u v in
    Returns-bind (f sb) g (h t sb p (omega (arith, size))) (λ sb' q.
      subst (λ x. Returns (Printed x) (g sb')) (append_assoc t u v)
        (k (t ++ u) sb' q (omega (arith, size, length-append t u))))

apply_number-Prints :
    (junk : ℕ) (name : List ℕ) (default n : ℕ)
    → length name < 2 ^ 29
    → Prints (apply_number junk name default n) (number_sql name default n)
unfolding apply_number
apply_number-Prints junk name default n h =
    Prints-if (n == default) (λ sb. ok sb) (λ sb. strbuf_vprintf junk sb (pragma name (print_d n)))
      [] _ Prints-none (print_pragma junk name (print_d n) (omega (arith, length-print_d n)))

-- The string is short enough to be printed.
abbrev pub IsShort : Option (List ℕ) → Type 0
IsShort none = Unit
IsShort (some str) = length str < 2 ^ 29

apply_algorithm-Prints :
    (junk : ℕ) (name : List ℕ) (pointer str : Option (List ℕ))
    → length name < 2 ^ 29
    → PointsTo pointer str
    → IsShort str
    → Prints (apply_algorithm junk name pointer) (algorithm_sql name str)
unfolding apply_algorithm
apply_algorithm-Prints junk name none none h p s = Prints-none
apply_algorithm-Prints junk name none (some str) h p s = absurd p
apply_algorithm-Prints junk name (some array) none h p s = absurd p
apply_algorithm-Prints junk name (some array) (some str) h p s =
    subst (λ m. Prints (λ sb. m >>= λ a. strbuf_vprintf junk sb (pragma name a)) (pragma name str))
      (sym p) (print_pragma junk name str (omega arith))

finish_lem :
    (buf : Buffer) (len capacity : ℕ) (text : List ℕ)
    → HoldsIn buf len capacity text
    → (text ≡ [] → capacity ≡ 0)
    → (if capacity == 0 then none else some (take len (cells buf))) ≡ or_null text
finish_lem buf len capacity [] h e = rw (e refl) refl
finish_lem null len capacity (c ∷ text) h e = absurd h
finish_lem defbuf len capacity (c ∷ text) h e = absurd (nonempty h.0)
  where
    nonempty : c ∷ text ≢ []
    nonempty z = cc
finish_lem (heap b) len capacity (c ∷ text) (rest, eb, el, es) e =
    let some_room : (capacity == 0) ≡ false = ground (arith, es) in
    if_not (capacity == 0) some_room none _
    ∙ ap some (HoldsIn-text (heap b) len capacity (c ∷ text) (rest, eb, el, es))

-- The SQL of some settings.
abbrev pub sql_of : CipherConfig → (kdf hmac : Option (List ℕ)) → List ℕ
sql_of cc kdf hmac =
    algorithm_sql kdf_name kdf
    ++ (algorithm_sql hmac_name hmac
        ++ (number_sql iter_name default_kdf_iter cc.kdf_iter
            ++ (number_sql page_name default_page_size cc.page_size
                ++ number_sql compat_name default_compatibility cc.compatibility)))

module _ (junk : ℕ) (cc : CipherConfig) (kdf hmac : Option (List ℕ)) where
  apply_settings-Prints :
      PointsTo cc.kdf_algorithm kdf
      → PointsTo cc.hmac_algorithm hmac
      → IsShort kdf
      → IsShort hmac
      → Prints (apply_settings junk cc) (sql_of cc kdf hmac)
  unfolding apply_settings
  apply_settings-Prints p q s s' =
      Prints-then (apply_algorithm junk kdf_name cc.kdf_algorithm) _ _ _
        (apply_algorithm-Prints junk kdf_name cc.kdf_algorithm kdf (omega arith) p s)
        (Prints-then (apply_algorithm junk hmac_name cc.hmac_algorithm) _ _ _
          (apply_algorithm-Prints junk hmac_name cc.hmac_algorithm hmac (omega arith) q s')
          (Prints-then (apply_number junk iter_name 256000 cc.kdf_iter) _ _ _
            (apply_number-Prints junk iter_name 256000 cc.kdf_iter (omega arith))
            (Prints-then (apply_number junk page_name 4096 cc.page_size)
              (apply_number junk compat_name 4 cc.compatibility) _ _
              (apply_number-Prints junk page_name 4096 cc.page_size (omega arith))
              (apply_number-Prints junk compat_name 4 cc.compatibility (omega arith)))))

  pub format-sql_of :
      PointsTo cc.kdf_algorithm kdf
      → PointsTo cc.hmac_algorithm hmac
      → IsShort kdf
      → IsShort hmac
      → length (sql_of cc kdf hmac) < 2 ^ 53
      → format_apply_cc_sqlstr junk cc ≡ ok (or_null (sql_of cc kdf hmac))
  unfolding format_apply_cc_sqlstr
  format-sql_of p q s s' small =
      let r =
        apply_settings-Prints p q s s' [] init ((refl, refl, refl), λ e. refl) (omega arith) in
      ap
        (λ m.
          m >>= λ sb. ok (if sb.capacity == 0 then none else some (take sb.length (cells sb.buf))))
        (r.1)
      ∙ ap ok (finish_lem r.0.buf r.0.length r.0.capacity (sql_of cc kdf hmac) r.2.0 r.2.1)
