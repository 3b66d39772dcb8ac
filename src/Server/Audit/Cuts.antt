-- ===== src/Server/Audit/Cuts.antt =====
-- What pages and cursors cut off an ordered list of audit events.
use false_flag_demo.Base.{
  ℕ, zero, suc, ◌<◌, Bool, true, false, ◌&&◌, ◌≡◌, refl, sym, ap, ◌∙◌, Option, none, some, List, [],
  ◌∷◌, ◌++◌, arith, ltb, All, length, select, order_by, take, Bool-cases, inl, inr, ◌⊎◌,
  some-injective,
}
use false_flag_demo.Server.Audit.{get_elem?}
use false_flag_demo.Server.Audit.Pages.{
  IsOrdered, not_before_self, not_before_back, select-order_by, select-IsDistinct, select_both,
  All-select,
}
use false_flag_demo.Store.{Uuid, Time, AuditEvent}
use false_flag_demo.Store.Reachable.{IsDistinct, same_event_id}
use false_flag_demo.Store.Selects.{event_before, behind_cursor}

abbrev pub drop : ℕ → List AuditEvent → List AuditEvent
drop zero es = es
drop (suc n) [] = []
drop (suc n) (e ∷ es) = drop n es

pub select-All :
    (keeps : AuditEvent → Bool) (es : List AuditEvent)
    → All (λ e. keeps e ≡ true) es
    → select keeps es ≡ es
unfolding select
select-All keeps [] h = refl
select-All keeps (e ∷ es) (h, hs) = rw h (rw (select-All keeps es hs) refl)

pub All-get_elem? {κ} :
    (P : AuditEvent → Type κ) (n : ℕ) (es : List AuditEvent) (e : AuditEvent)
    → get_elem? n es ≡ some e
    → All P es
    → P e
unfolding get_elem?
All-get_elem? P n [] e h hs = cc
All-get_elem? P zero (f ∷ es) e h (k, ks) = rw (some-injective (sym h)) k
All-get_elem? P (suc n) (f ∷ es) e h (k, ks) = All-get_elem? P n es e h ks

pub select_behind_first :
    (e : AuditEvent) (es : List AuditEvent)
    → All (λ f. event_before e f ≡ true) es
    → select (event_before e) (e ∷ es) ≡ es
unfolding select
select_behind_first e es o = rw (not_before_self e) (select-All (event_before e) es o)

-- In an ordered list, what is behind an event is the rest after it.
pub select_behind :
    (n : ℕ) (es : List AuditEvent) (e : AuditEvent)
    → IsOrdered es
    → get_elem? n es ≡ some e
    → select (event_before e) es ≡ drop (suc n) es
unfolding get_elem? select
select_behind n [] e o h = refl
select_behind zero (f ∷ es) e (o, os) h =
    ap (λ x. select (event_before x) (f ∷ es)) (sym (some-injective h)) ∙ select_behind_first f es o
select_behind (suc n) (f ∷ es) e (o, os) h =
    let sooner = All-get_elem? (λ g. event_before f g ≡ true) n es e h o in
    rw (not_before_back f e sooner) (select_behind n es e os h)

-- What a page of `suc n` events shows of the rows from its cursor on, of which one more is read.
pub page_split :
    (n : ℕ) (es : List AuditEvent)
    → ((ltb (suc n) (length (take (suc (suc n)) es)) ≡ false)
        × (take (suc n) (take (suc (suc n)) es) ≡ es))
      ⊎ ((e : AuditEvent) × (ltb (suc n) (length (take (suc (suc n)) es)) ≡ true)
          × (get_elem? n (take (suc (suc n)) es) ≡ some e)
          × (get_elem? n es ≡ some e)
          × (take (suc n) (take (suc (suc n)) es) ++ drop (suc n) es ≡ es)
          × (length (drop (suc n) es) < length es))
unfolding take get_elem?
page_split n [] = inl (ground arith, refl)
page_split zero (e ∷ []) = inl (ground arith, refl)
page_split zero (e ∷ f ∷ es) = inr (e, ground arith, refl, refl, refl, omega arith)
page_split (suc n) (e ∷ es) = elim (page_split n es) [
  | inl (few, all) ↦ inl (ground arith, rw all refl)
  | inr (last, more, shown, there, split, less) ↦
      inr (last, ground arith, shown, there, ap (λ (l : List AuditEvent). e ∷ l) split, omega arith)
]

pub All-true : (es : List AuditEvent) → All (λ e. true ≡ true) es
All-true [] = tt
All-true (e ∷ es) = (refl, All-true es)

pub behind_trans :
    (ts : Option Time) (id : Uuid) (e f : AuditEvent)
    → behind_cursor ts id e ≡ true
    → event_before e f ≡ true
    → behind_cursor ts id f ≡ true
behind_trans none id e f h k = refl
behind_trans (some t) id e f h k = ground arith

pub All-selected :
    (keeps : AuditEvent → Bool) (es : List AuditEvent) → All (λ e. keeps e ≡ true) (select keeps es)
unfolding select
All-selected keeps [] = tt
All-selected keeps (e ∷ es) = elim (Bool-cases (keeps e)) [
  | inl kept ↦ rw kept (kept, All-selected keeps es)
  | inr dropped ↦ rw dropped (All-selected keeps es)
]

pub select-IsOrdered :
    (keeps : AuditEvent → Bool) (es : List AuditEvent) → IsOrdered es → IsOrdered (select keeps es)
unfolding select
select-IsOrdered keeps [] o = tt
select-IsOrdered keeps (e ∷ es) (o, os) = elim (Bool-cases (keeps e)) [
  | inl kept ↦
      rw kept (All-select (λ f. event_before e f ≡ true) keeps es o, select-IsOrdered keeps es os)
  | inr dropped ↦ rw dropped (select-IsOrdered keeps es os)
]

pub behind_rows :
    (a b : AuditEvent → Bool) (es : List AuditEvent)
    → IsDistinct same_event_id es
    → order_by event_before (select (λ e. a e && b e) es)
      ≡ select b (order_by event_before (select a es))
behind_rows a b es d =
    ap (order_by event_before) (select_both a b es)
    ∙ sym (select-order_by b (select a es) (select-IsDistinct a es d))
