-- ===== src/Writer/Laws/Labels.antt =====
-- The sets of ids that wait for their figure, table or listing.
use pymotw.Prelude.{
  ◌≡◌, refl, ◌∙◌, ap, String, true, false, List, [], ◌∷◌, if◌then◌else◌, ◌=ˢ◌, eq_iff, Bool-cases,
  inl, inr, add_all,
}
use pymotw.Writer.State.{Translator, ok, ◌>>◌, ◌>>=◌, update}
use pymotw.Writer.Text.{lookup_ids, update_ids, remove_ids, push_hyperlink_ids, pop_hyperlink_ids}

abbrev Ids : Type 0
Ids = List (String × List String)

same : (k : String) → (k =ˢ k) ≡ true
same k = (eq_iff k k).1 refl

lookup-update_same :
    (k : String) (ids : List String) (d : Ids)
    → lookup_ids k (update_ids k ids d) ≡ add_all ids (lookup_ids k d)
unfolding lookup_ids update_ids
lookup-update_same k ids [] = rw (same k) refl
lookup-update_same k ids ((j, v) ∷ d) = elim (Bool-cases (j =ˢ k)) [
  | inl e ↦ rw e (rw e refl)
  | inr e ↦ rw e (rw e (lookup-update_same k ids d))
]

lookup-update_other :
    (k m : String) (ids : List String) (d : Ids)
    → (k =ˢ m) ≡ false
    → lookup_ids m (update_ids k ids d) ≡ lookup_ids m d
unfolding lookup_ids update_ids
lookup-update_other k m ids [] h = rw h refl
lookup-update_other k m ids ((j, v) ∷ d) h = elim (Bool-cases (j =ˢ k)) [
  | inl e ↦ rw e (rw (ap (λ x. x =ˢ m) ((eq_iff j k).0 e) ∙ h) refl)
  | inr e ↦ rw e (ap (λ l. if j =ˢ m then v else l) (lookup-update_other k m ids d h))
]

lookup-remove_same : (k : String) (d : Ids) → lookup_ids k (remove_ids k d) ≡ []
unfolding lookup_ids remove_ids
lookup-remove_same k [] = refl
lookup-remove_same k ((j, v) ∷ d) = elim (Bool-cases (j =ˢ k)) [
  | inl e ↦ rw e (lookup-remove_same k d)
  | inr e ↦ rw e (rw e (lookup-remove_same k d))
]

lookup-remove_other :
    (k m : String) (d : Ids) → (k =ˢ m) ≡ false → lookup_ids m (remove_ids k d) ≡ lookup_ids m d
unfolding lookup_ids remove_ids
lookup-remove_other k m [] h = refl
lookup-remove_other k m ((j, v) ∷ d) h = elim (Bool-cases (j =ˢ k)) [
  | inl e ↦ rw e (rw (ap (λ x. x =ˢ m) ((eq_iff j k).0 e) ∙ h) (lookup-remove_other k m d h))
  | inr e ↦ rw e (ap (λ l. if j =ˢ m then v else l) (lookup-remove_other k m d h))
]

-- The pop behind a push of ids gives what the type had with the ids added, a second pop gives none, and
-- the pop of a type with another name gives what it would have given before.
pub pop-push_hyperlink_ids :
    (k m : String) (ids : List String) (s : Translator)
    → (k =ˢ m) ≡ false
    → let r = (push_hyperlink_ids k ids >> pop_hyperlink_ids k) s in
      (r.0 ≡ ok (add_all ids (lookup_ids k s.next_hyperlink_ids)))
      × ((pop_hyperlink_ids k (r.1)).0 ≡ ok [])
      × ((pop_hyperlink_ids m (r.1)).0 ≡ (pop_hyperlink_ids m s).0)
unfolding push_hyperlink_ids pop_hyperlink_ids ◌>>◌ ◌>>=◌ update
pop-push_hyperlink_ids k m ids s h = (
  ap ok (lookup-update_same k ids s.next_hyperlink_ids),
  ap ok (lookup-remove_same k (update_ids k ids s.next_hyperlink_ids)),
  ap ok (
      lookup-remove_other k m (update_ids k ids s.next_hyperlink_ids) h
      ∙ lookup-update_other k m ids s.next_hyperlink_ids h),
)
