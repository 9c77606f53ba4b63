-- ===== src/Domain/Templates/Lifecycle.antt =====
-- The life of a credential template in packages/credential-domain/src/index.ts: from review to
-- published to deprecated, and nothing else about it changes.
use universal_smart_wallet.Prelude.{
  ℕ, suc, ◌≤◌, String, true, false, ◌≡◌, refl, sym, ap, ◌∙◌, inl, inr, List, [], ◌∷◌, Option, none,
  some, arith, str_eq, if◌then◌else◌, includes, Map, insert, lookup-insert, lookup-insert_self, ok,
  err, is_ok, Result-cases, Option-cases, Bool-cases,
}
use universal_smart_wallet.Value.{
  Value, undefined, null, bool, num, str, arr, obj, or_undefined, member, entries, of_entries,
  entries-of_entries,
}
use universal_smart_wallet.Domain.Attestations.{Checked}
use universal_smart_wallet.Domain.Templates.{
  first_unknown, assert_strict_record, check_template, template_keys, is_template_status,
  parse_template, is_text, publish_template, deprecate_template, without_unknown, text_of,
}

first_unknown-insert :
    (keys : List String) (k : String) (v : Value) (m : Map Value)
    → includes k keys ≡ true
    → first_unknown keys m ≡ none
    → first_unknown keys (insert k v m) ≡ none
unfolding first_unknown insert
first_unknown-insert keys k v [] i h = ground arith
first_unknown-insert keys k v ((j, w) ∷ m) i h = elim (Bool-cases (str_eq j k)) [
  | inl e ↦ ground arith
  | inr e ↦ let later = first_unknown-insert keys k v m i (ground arith) in ground arith
]

-- Setting the status changes no other property.
member-insert_status :
    (k : String) (v : Value) (m : Map Value)
    → str_eq "status" k ≡ false
    → member k (insert "status" v m) ≡ member k m
unfolding member
member-insert_status k v m h = ground (arith, lookup-insert "status" k v m)

check_template-insert :
    (v : Value) (m : Map Value) → check_template (insert "status" v m) ≡ check_template m
unfolding check_template
check_template-insert v m =
    rw
      (
        member-insert_status "schemaVersion" v m refl,
        member-insert_status "tenantId" v m refl,
        member-insert_status "templateId" v m refl,
        member-insert_status "type" v m refl,
        member-insert_status "version" v m refl,
        member-insert_status "assurance" v m refl,
        member-insert_status "formats" v m refl,
        member-insert_status "claims" v m refl,
      )
      refl

member-insert_self : (k : String) (v : Value) (m : Map Value) → member k (insert k v m) ≡ v
unfolding member
member-insert_self k v m = ap or_undefined (lookup-insert_self k v m)

without_unknown-eq-ok :
    (name : String) (m n : Map Value) (o : Option String)
    → without_unknown name m o ≡ ok n
    → (o ≡ none) × (m ≡ n)
without_unknown-eq-ok name m n none h = (refl, cc h)
without_unknown-eq-ok name m n (some k) h = absurd (ground arith)

-- What a parsed template is: the given object, without unknown keys and in order.
parse_template-eq-ok :
    (value : Value) (m : Map Value)
    → parse_template value ≡ ok m
    → (first_unknown template_keys m ≡ none)
      × (check_template m ≡ ok tt)
      × (is_template_status (member "status" m) ≡ true)
unfolding parse_template assert_strict_record
parse_template-eq-ok (obj fs) m h = elim (Option-cases (first_unknown template_keys (entries fs))) [
  | inr (k, e) ↦ absurd (ground arith)
  | inl e ↦ (ground arith, ground arith, ground arith)
]
parse_template-eq-ok undefined m h = absurd (ground arith)
parse_template-eq-ok null m h = absurd (ground arith)
parse_template-eq-ok (bool b) m h = absurd (ground arith)
parse_template-eq-ok (num n) m h = absurd (ground arith)
parse_template-eq-ok (str s) m h = absurd (ground arith)
parse_template-eq-ok (arr vs) m h = absurd (ground arith)

assert_strict_record-insert :
    (m : Map Value) (s : String)
    → first_unknown template_keys m ≡ none
    → assert_strict_record (obj (of_entries (insert "status" (str s) m))) template_keys "template"
      ≡ ok (insert "status" (str s) m)
unfolding assert_strict_record includes
assert_strict_record-insert m s h =
    rw
      (
        entries-of_entries (insert "status" (str s) m),
        first_unknown-insert template_keys "status" (str s) m refl h,
      )
      refl

-- A template with another status is parsed like the template.
parse_template-insert :
    (value : Value) (m : Map Value) (s : String)
    → parse_template value ≡ ok m
    → is_template_status (str s) ≡ true
    → parse_template (obj (of_entries (insert "status" (str s) m))) ≡ ok (insert "status" (str s) m)
unfolding parse_template
parse_template-insert value m s h k =
    let facts = parse_template-eq-ok value m h in
    rw
      (
        assert_strict_record-insert m s facts.0,
        check_template-insert (str s) m,
        facts.1,
        member-insert_self "status" (str s) m,
        k,
      )
      refl

-- The two changes of a template's status.
pub data Move : Type 0 where
  publishes deprecates : Move

unfoldable pub apply : Move → Value → Checked (Map Value)
apply publishes v = publish_template v
apply deprecates v = deprecate_template v

-- The template after a change that is refused is the same.
abbrev pub result_of : Value → Checked (Map Value) → Value
result_of v (ok m) = obj (of_entries m)
result_of v (err e) = v

unfoldable pub after_moves : Value → List Move → Value
after_moves v [] = v
after_moves v (move ∷ moves) = after_moves (result_of v (apply move v)) moves

-- How many of the changes are made.
unfoldable pub moves_done : Value → List Move → ℕ
moves_done v [] = 0
moves_done v (move ∷ moves) =
    let rest = moves_done (result_of v (apply move v)) moves in
    if is_ok (apply move v) then suc rest else rest

abbrev pub properties_of : Value → Map Value
properties_of (obj fs) = entries fs
properties_of _ = []

-- How many changes a template of this status has before it.
abbrev pub stages_of : Value → ℕ
stages_of status =
    if is_text "review" status then 2 else if is_text "published" status then 1 else 0

abbrev pub stages_left : Value → ℕ
stages_left v = stages_of (member "status" (properties_of v))

parse_template-properties :
    (value : Value) (m : Map Value) → parse_template value ≡ ok m → properties_of value ≡ m
unfolding parse_template assert_strict_record
parse_template-properties (obj fs) m h =
    elim (Option-cases (first_unknown template_keys (entries fs))) [
      | inr (k, e) ↦ absurd (ground arith)
      | inl e ↦ ground arith
    ]
parse_template-properties undefined m h = absurd (ground arith)
parse_template-properties null m h = absurd (ground arith)
parse_template-properties (bool b) m h = absurd (ground arith)
parse_template-properties (num n) m h = absurd (ground arith)
parse_template-properties (str s) m h = absurd (ground arith)
parse_template-properties (arr vs) m h = absurd (ground arith)

-- What a change of the status is: the template's next stage.
record Moved (v : Value) (m : Map Value) : Type 0 where
  later : String
  parsed : parse_template v ≡ ok (properties_of v)
  changed : m ≡ insert "status" (str later) (properties_of v)
  reparsed : parse_template (obj (of_entries m)) ≡ ok m
  nearer : suc (stages_left (obj (of_entries m))) ≤ stages_left v

Moved-intro :
    (value : Value) (t m : Map Value) (later : String)
    → parse_template value ≡ ok t
    → is_template_status (str later) ≡ true
    → m ≡ insert "status" (str later) t
    → suc (stages_of (str later)) ≤ stages_of (member "status" t)
    → Moved value m
Moved-intro value t m later h k e less =
    let own = parse_template-properties value t h in
    let again = parse_template-insert value t later h k in
    let entries_eq = entries-of_entries (insert "status" (str later) t) in
    let status_eq = member-insert_self "status" (str later) t in
    record {
      later = later;
      parsed = h ∙ ap ok (sym own);
      changed = e ∙ ap (insert "status" (str later)) (sym own);
      reparsed = rw e again;
      nearer = rw (e, entries_eq, status_eq, own) less;
    }

module _ (value : Value) (m : Map Value) where
  publish-Moved : publish_template value ≡ ok m → Moved value m
  unfolding publish_template is_template_status text_of includes
  publish-Moved h = elim (Result-cases (parse_template value)) [
    | inr (e, ee) ↦ absurd (ground arith)
    | inl (t, et) ↦
        let again = parse_template-insert value t "published" et refl in
        Moved-intro value t m "published" et refl (ground arith) (ground arith)
  ]

  deprecate-Moved : deprecate_template value ≡ ok m → Moved value m
  unfolding deprecate_template is_template_status text_of includes
  deprecate-Moved h = elim (Result-cases (parse_template value)) [
    | inr (e, ee) ↦ absurd (ground arith)
    | inl (t, et) ↦
        let again = parse_template-insert value t "deprecated" et refl in
        Moved-intro value t m "deprecated" et refl (ground arith) (ground arith)
  ]

apply-Moved :
    (move : Move) (value : Value) (m : Map Value) → apply move value ≡ ok m → Moved value m
unfolding apply
apply-Moved publishes value m h = publish-Moved value m h
apply-Moved deprecates value m h = deprecate-Moved value m h

-- What a history of changes leaves of a template.
pub record Kept (v w : Value) (count : ℕ) : Type 0 where
  pub bounded : count ≤ stages_left v
  pub others :
      (k : String)
      → str_eq "status" k ≡ false
      → member k (properties_of w) ≡ member k (properties_of v)
  pub parses : is_ok (parse_template v) ≡ true → is_ok (parse_template w) ≡ true

-- Whatever changes of status are asked for, a template in review is changed at most twice, a
-- published one at most once and any other never; every other property stays as it was, and a
-- template that parses still does.
pub lifecycle : (v : Value) (moves : List Move) → Kept v (after_moves v moves) (moves_done v moves)
unfolding after_moves moves_done
lifecycle v [] = record { bounded = omega arith; others = λ k h. refl; parses = λ h. h }
lifecycle v (move ∷ moves) = elim (Result-cases (apply move v)) [
  | inr (e, ee) ↦ let later = lifecycle v moves in rw (ee) later
  | inl (m, em) ↦
      let w = obj (of_entries m) in
      let moved = apply-Moved move v m em in
      let later = lifecycle w moves in
      let own = properties_of w in
      rw (em) (record {
        bounded = omega (arith, later.bounded, moved.nearer);
        others = λ k h.
            later.others k h
            ∙ ap (member k) (entries-of_entries m ∙ moved.changed)
            ∙ member-insert_status k (str moved.later) (properties_of v) h;
        parses = λ h. later.parses (ap is_ok moved.reparsed);
      })
]
