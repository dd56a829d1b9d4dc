-- ===== src/Records/Pieces.antt =====
-- src/handle-record.c: the lines of a file that format_recfile_content wrote.
use pass_keeper.Prelude.{
  ℕ, ◌≡◌, refl, sym, ap, subst, ◌∙◌, inl, inr, Bool-cases, true, false, ◌&&◌, List, [], ◌∷◌, ◌++◌,
  append_assoc, append-nil, map, Option, none, some, ◌==◌,
}
use pass_keeper.Text.{is_blank_str}
use pass_keeper.Strlist.Fields.{fields, fields_cut, fields-glue, glue}
use pass_keeper.Strlist.Holding.{of_str}
use pass_keeper.Strlist.Moving.{kept, EndsRejected}
use pass_keeper.Records.{Record, Member, get_member}
use pass_keeper.Records.Reader.{is_line, recfile_line_filter}
use pass_keeper.Records.Written.{shown, text_of_member, text_of}
use pass_keeper.Records.Values.{Entry, lines_of_value, lines_of}

abbrev pub NoNewline : List ℕ → Type 0
NoNewline [] = Unit
NoNewline (c ∷ str) = ((c == b'\n') ≡ false) × NoNewline str

-- The lines of a text.
abbrev pub lines_in : List ℕ → List (List ℕ)
lines_in text = fields b'\n' none text

lines_in-cons : (l rest : List ℕ) → NoNewline l → lines_in (l ++ b'\n' ∷ rest) ≡ l ∷ lines_in rest
lines_in-cons [] rest h = fields_cut b'\n' b'\n' none rest refl
lines_in-cons (c ∷ l) rest h =
    fields-glue b'\n' c none (l ++ b'\n' ∷ rest) (ap (λ b. b && true) h.0)
    ∙ ap (glue c) (lines_in-cons l rest h.1)

-- The lines of a text, of which there is one at least, and those of the text with a line feed.
Closed : List ℕ → Type 0
Closed text =
    (l : List ℕ) × (ls : List (List ℕ)) × (lines_in text ≡ l ∷ ls)
    × (lines_in (text ++ b'\n' ∷ []) ≡ (l ∷ ls) ++ [] ∷ [])

lines_in-Closed : (text : List ℕ) → Closed text
unfolding Closed fields
lines_in-Closed [] = ([], [], refl, refl)
lines_in-Closed (c ∷ text) =
    let (l, ls, e, f) = lines_in-Closed text in
    elim (Bool-cases (c == b'\n')) [
      | inl cut ↦ (
        [],
        l ∷ ls,
        fields_cut b'\n' c none text (ap (λ b. b && true) cut) ∙ ap ([] ∷◌) e,
        fields_cut b'\n' c none (text ++ b'\n' ∷ []) (ap (λ b. b && true) cut) ∙ ap ([] ∷◌) f,
      )
      | inr more ↦ (
        c ∷ l,
        ls,
        fields-glue b'\n' c none text (ap (λ b. b && true) more) ∙ ap (glue c) e,
        fields-glue b'\n' c none (text ++ b'\n' ∷ []) (ap (λ b. b && true) more) ∙ ap (glue c) f,
      )
    ]

pub lines_in_newline : (text : List ℕ) → lines_in (text ++ b'\n' ∷ []) ≡ lines_in text ++ [] ∷ []
unfolding Closed
lines_in_newline text =
    let (l, ls, e, f) = lines_in-Closed text in f ∙ ap (λ z. z ++ [] ∷ []) (sym e)

-- The lines of the members: the id, the value's line, and an empty one.
abbrev pub lines_of_members : Record → List (List ℕ × Member) → List (List ℕ)
lines_of_members rec [] = []
lines_of_members rec (f ∷ fs) = f.0 ∷ (shown (get_member f.1 rec) ∷ ([] ∷ lines_of_members rec fs))

-- No id and no value has a line feed.
abbrev pub AreUncut : Record → List (List ℕ × Member) → Type 0
AreUncut rec [] = Unit
AreUncut rec (f ∷ fs) = NoNewline f.0 × NoNewline (shown (get_member f.1 rec)) × AreUncut rec fs

pub lines_in-text_of :
    (rec : Record) (fs : List (List ℕ × Member)) (rest : List ℕ)
    → AreUncut rec fs
    → lines_in (text_of rec fs ++ rest) ≡ lines_of_members rec fs ++ lines_in rest
lines_in-text_of rec [] rest h = refl
lines_in-text_of rec (f ∷ fs) rest (k, v, h) =
    let value : List ℕ = shown (get_member f.1 rec) in
    let more : List ℕ = text_of rec fs ++ rest in
    ap lines_in (
      append_assoc (text_of_member f.0 (get_member f.1 rec)) (text_of rec fs) rest
      ∙ append_assoc (f.0 ++ b'\n' ∷ []) ((value ++ b'\n' ∷ []) ++ b'\n' ∷ []) more
      ∙ append_assoc f.0 (b'\n' ∷ []) (((value ++ b'\n' ∷ []) ++ b'\n' ∷ []) ++ more)
      ∙ ap (λ u. f.0 ++ b'\n' ∷ u)
          (append_assoc (value ++ b'\n' ∷ []) (b'\n' ∷ []) more
            ∙ append_assoc value (b'\n' ∷ []) (b'\n' ∷ more)))
    ∙ lines_in-cons f.0 (value ++ b'\n' ∷ (b'\n' ∷ more)) k
    ∙ ap (f.0 ∷◌) (
        lines_in-cons value (b'\n' ∷ more) v
        ∙ ap (value ∷◌) (lines_in-cons [] more tt ∙ ap ([] ∷◌) (lines_in-text_of rec fs rest h)))

-- Every line is empty, or a comment.
abbrev pub AreComments : List (List ℕ) → Type 0
AreComments [] = Unit
AreComments (l ∷ ls) = (is_line l ≡ false) × AreComments ls

pub AreComments-blank : (ls : List (List ℕ)) → AreComments ls → AreComments (ls ++ [] ∷ [])
unfolding is_line
AreComments-blank [] h = (refl, tt)
AreComments-blank (l ∷ ls) h = (h.0, AreComments-blank ls h.1)

kept-comments :
    (ls : List (List ℕ)) → AreComments ls → kept recfile_line_filter (map of_str ls) ≡ []
unfolding kept recfile_line_filter
kept-comments [] h = refl
kept-comments (l ∷ ls) h = rw (h.0) (kept-comments ls h.1)

EndsRejected-comments :
    (ls : List (List ℕ)) → AreComments ls → EndsRejected recfile_line_filter (map of_str ls)
unfolding recfile_line_filter
EndsRejected-comments [] h = tt
EndsRejected-comments (l ∷ []) h = h.0
EndsRejected-comments (l ∷ (k ∷ ls)) h = EndsRejected-comments (k ∷ ls) h.1

-- The entry of a member.
abbrev pub entries_of : Record → List (List ℕ × Member) → List Entry
entries_of rec [] = []
entries_of rec (f ∷ fs) =
    record { key = f.0; member = f.1; value = get_member f.1 rec } ∷ entries_of rec fs

-- A value that the filter keeps, or none.
abbrev pub IsKept : Option (List ℕ) → Type 0
IsKept none = Unit
IsKept (some v) = (is_blank_str (some v) ≡ false) × (is_line v ≡ true)

abbrev pub AreKept : Record → List (List ℕ × Member) → Type 0
AreKept rec [] = Unit
AreKept rec (f ∷ fs) = (is_line f.0 ≡ true) × IsKept (get_member f.1 rec) × AreKept rec fs

kept_value :
    (value : Option (List ℕ)) (ls xs : List (List ℕ))
    → IsKept value
    → kept recfile_line_filter (map of_str ls) ≡ map of_str xs
    → kept recfile_line_filter (map of_str (shown value ∷ ([] ∷ ls)))
      ≡ map of_str (lines_of_value value ++ xs)
unfolding kept recfile_line_filter is_line
kept_value none ls xs h e = e
kept_value (some v) ls xs (filled, passes) e = rw (filled, passes, e) refl

pub kept_members :
    (rec : Record) (fs : List (List ℕ × Member)) (ls : List (List ℕ))
    → AreKept rec fs
    → AreComments ls
    → kept recfile_line_filter (map of_str (lines_of_members rec fs ++ ls))
      ≡ map of_str (lines_of (entries_of rec fs))
unfolding kept recfile_line_filter
kept_members rec [] ls h comments = kept-comments ls comments
kept_members rec (f ∷ fs) ls (id, v, h) comments =
    let rest : List (List ℕ) = lines_of_members rec fs ++ ls in
    rw (id) (
      ap (of_str f.0 ∷◌) (
        kept_value (get_member f.1 rec) rest (lines_of (entries_of rec fs)) v
          (kept_members rec fs ls h comments)))

EndsRejected-append :
    (xs : List (List ℕ)) (l : List ℕ) (ls : List (List ℕ))
    → AreComments (l ∷ ls)
    → EndsRejected recfile_line_filter (map of_str (xs ++ l ∷ ls))
EndsRejected-append [] l ls h = EndsRejected-comments (l ∷ ls) h
EndsRejected-append (x ∷ []) l ls h = EndsRejected-comments (l ∷ ls) h
EndsRejected-append (x ∷ (y ∷ xs)) l ls h = EndsRejected-append (y ∷ xs) l ls h

pub EndsRejected-lines :
    (xs ls : List (List ℕ))
    → EndsRejected recfile_line_filter (map of_str xs)
    → AreComments ls
    → EndsRejected recfile_line_filter (map of_str (xs ++ ls))
EndsRejected-lines xs [] h comments =
    subst (λ z. EndsRejected recfile_line_filter (map of_str z)) (sym (append-nil xs)) h
EndsRejected-lines xs (l ∷ ls) h comments = EndsRejected-append xs l ls comments

pub EndsRejected-members :
    (rec : Record) (fs : List (List ℕ × Member))
    → EndsRejected recfile_line_filter (map of_str (lines_of_members rec fs))
unfolding recfile_line_filter is_line
EndsRejected-members rec [] = tt
EndsRejected-members rec (f ∷ []) = refl
EndsRejected-members rec (f ∷ (g ∷ fs)) = EndsRejected-members rec (g ∷ fs)
