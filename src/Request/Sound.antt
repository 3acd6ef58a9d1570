-- ===== src/Request/Sound.antt =====
-- Families of lists in which each member is on one list at most (the lists of gdp/gdp_req.c).
use gdp.Base.{
  and_true, ℕ, ◌≡◌, sym, ap, ◌∙◌, Bool, true, false, not, ◌&&◌, ◌||◌, List, ◌∷◌, All, ◌==◌, ==_iff,
  ==_self, Bool-cases, inl, inr,
}
use gdp.Cache.Steps.{list_remove}
use gdp.Cache.Steps.Invariant.{IsOther, IsDistinct, list_remove-IsDistinct}
use gdp.Gobs.Sound.{among, among-list_remove, among-All, by_object}
use gdp.Request.{update_list}

-- Each list has those members that `on` says, and none twice.
pub record IsLinked (lists : ℕ → List ℕ) (on : ℕ → ℕ → Bool) : Type 0 where
  pub members : (h r : ℕ) → among r (lists h) ≡ on r h
  pub distinct : (h : ℕ) → IsDistinct (lists h)

pub IsLinked-same :
    (lists : ℕ → List ℕ) (on on' : ℕ → ℕ → Bool)
    → ((r h : ℕ) → on r h ≡ on' r h)
    → IsLinked lists on
    → IsLinked lists on'
IsLinked-same lists on on' same ok = record {
  members = λ h r. ok.members h r ∙ same r h;
  distinct = ok.distinct;
}

apart : (gs : List ℕ) (x : ℕ) → among x gs ≡ false → All (IsOther x) gs
unfolding among
apart gs x away = among-All (IsOther x) gs (λ g m. elim (Bool-cases (g == x)) [
  | inr p ↦ p
  | inl p ↦
      let same : g ≡ x = (==_iff g x).0 p in
      let yes : among x gs ≡ true = rw (sym same) m in absurd (cc (yes, away))
])

-- A member that is on no list is put on one.
pub IsLinked-insert :
    (lists : ℕ → List ℕ) (on : ℕ → ℕ → Bool) (head req : ℕ)
    → IsLinked lists on
    → on req head ≡ false
    → IsLinked
        (update_list head (req ∷ lists head) lists)
        (λ r h. ((h == head) && (req == r)) || on r h)
unfolding among
IsLinked-insert lists on head req ok free = record {
  members =
      by_object _ head
        (λ r. rw (==_self head) (ap (λ (b : Bool). (req == r) || b) (ok.members head r)))
        (λ h p r. rw p (ok.members h r));
  distinct =
      by_object _ head
        (rw (==_self head) (apart (lists head) req (ok.members head req ∙ free), ok.distinct head))
        (λ h p. rw p (ok.distinct h));
}

-- A member is taken off one list.
pub IsLinked-remove :
    (lists : ℕ → List ℕ) (on : ℕ → ℕ → Bool) (head req : ℕ)
    → IsLinked lists on
    → IsLinked
        (update_list head (list_remove req (lists head)) lists)
        (λ r h. on r h && not ((h == head) && (r == req)))
IsLinked-remove lists on head req ok = record {
  members =
      by_object _ head
        (λ r. rw (==_self head) (
          among-list_remove req r (lists head) (ok.distinct head)
          ∙ ap (λ (b : Bool). b && not (r == req)) (ok.members head r)))
        (λ h p r. rw p (ok.members h r ∙ sym (and_true (on r h))));
  distinct =
      by_object _ head
        (rw (==_self head) (list_remove-IsDistinct req (lists head) (ok.distinct head)).0)
        (λ h p. rw p (ok.distinct h));
}
