-- ===== src/Approvals/Edits.antt =====
-- `parameter_edits` of `ApprovalService.decide`: which edits it takes, and what they change.
use ops_pilot_ai.Base.{
  String, true, false, Option, some, List, [], ◌∷◌, ◌≡◌, ◌≢◌, ◌∙◌, refl, sym, ap, arith, inl, inr,
  ◌⊎◌, ◌==◌, string_eq, contains, all, All, In, Bool-cases, if◌then◌else◌,
}
use ops_pilot_ai.Storage.Rows.{Value}
use ops_pilot_ai.Storage.Values.{get_item}
use ops_pilot_ai.Events.{Payload, set_item}
use ops_pilot_ai.Approvals.{only_editable, merge}

-- Every edit is of an editable key.
abbrev pub AreEditable : List String → Payload → Type 0
AreEditable keys edits = All (λ (e : String × Value). In e.0 keys) edits

-- What a key holds after the edits: an edit gives it, or no edit names the key and it is as before.
abbrev pub IsEdited : Payload → String → Option Value → Option Value → Type 0
IsEdited edits k before after =
    ((v : Value) × In (k, v) edits × (after ≡ some v))
    ⊎ (All (λ (e : String × Value). e.0 ≢ k) edits × (after ≡ before))

In-contains : (a : String) (xs : List String) → contains xs a ≡ true → In a xs
In-contains a [] h = absurd (cc h)
In-contains a (x ∷ xs) h = elim (Bool-cases (a == x)) [
  | inl t ↦ inl ((string_eq.equals_iff a x).0 t)
  | inr f ↦ inr (In-contains a xs (ground (arith, f, h)))
]

pub only_editable-AreEditable :
    (keys : List String) (edits : Payload)
    → only_editable keys edits ≡ true
    → AreEditable keys edits
unfolding only_editable all
only_editable-AreEditable keys [] h = tt
only_editable-AreEditable keys (e ∷ edits) h = elim (Bool-cases (contains keys e.0)) [
  | inl t ↦ (In-contains e.0 keys t, only_editable-AreEditable keys edits (rw t at h))
  | inr f ↦ absurd (cc (rw f at h))
]

other_key : (j k : String) → (j == k) ≡ false → j ≢ k
other_key j k f e = cc (f, (string_eq.equals_iff j k).1 e)

get_item-set_item :
    (k j : String) (v : Value) (p : Payload)
    → get_item k (set_item j v p) ≡ (if j == k then some v else get_item k p)
unfolding get_item set_item
get_item-set_item k j v [] = refl
get_item-set_item k j v ((i, w) ∷ p) = elim (Bool-cases (i == j)) [
  | inl t ↦
      let e : i ≡ j = (string_eq.equals_iff i j).0 t in
      elim (Bool-cases (j == k)) [
        | inl u ↦ rw (t, u) refl
        | inr u ↦ let n : (i == k) ≡ false = rw (← e) at u in rw (t, u, n) refl
      ]
  | inr f ↦ elim (Bool-cases (i == k)) [
    | inl u ↦
        let e : i ≡ k = (string_eq.equals_iff i k).0 u in
        let n : (j == k) ≡ false = elim (Bool-cases (j == k)) [
          | inl t ↦ absurd (other_key i j f (e ∙ sym ((string_eq.equals_iff j k).0 t)))
          | inr g ↦ g
        ] in
        rw (f, u, n) refl
    | inr u ↦ rw (f, u) (get_item-set_item k j v p)
  ]
]

pub merge-IsEdited :
    (k : String) (edits p : Payload) → IsEdited edits k (get_item k p) (get_item k (merge p edits))
unfolding merge
merge-IsEdited k [] p = inr (tt, refl)
merge-IsEdited k ((j, v) ∷ edits) p =
    let e = get_item-set_item k j v p in
    elim (merge-IsEdited k edits (set_item j v p)) [
      | inl (w, m, q) ↦ inl (w, inr m, q)
      | inr (n, q) ↦ elim (Bool-cases (j == k)) [
        | inl t ↦
            let same : j ≡ k = (string_eq.equals_iff j k).0 t in
            inl (v, inl (ap (λ (x : String). (x, v)) (sym same)), q ∙ rw t at e)
        | inr f ↦ inr ((other_key j k f, n), q ∙ rw f at e)
      ]
    ]
