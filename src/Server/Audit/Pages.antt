-- ===== src/Server/Audit/Pages.antt =====
-- The order of the audit events that a listing gives, and what a cursor cuts off.
use false_flag_demo.Base.{
  Bool, true, false, ◌&&◌, ◌≡◌, refl, List, [], ◌∷◌, arith, All, exists, select, order_by,
  insert_by, if◌then◌else◌, Bool-cases, inl, inr,
}
use false_flag_demo.Store.{AuditEvent}
use false_flag_demo.Store.Selects.{event_before}
use false_flag_demo.Store.Reachable.{IsDistinct, same_event_id}

-- In the order of a listing, each before all that follow.
abbrev pub IsOrdered : List AuditEvent → Type 0
IsOrdered [] = Unit
IsOrdered (e ∷ es) = All (λ f. event_before e f ≡ true) es × IsOrdered es

pub before_trans :
    (e f g : AuditEvent)
    → event_before e f ≡ true
    → event_before f g ≡ true
    → event_before e g ≡ true
before_trans e f g h k = ground arith

before_total :
    (e f : AuditEvent)
    → same_event_id e f ≡ false
    → event_before f e ≡ false
    → event_before e f ≡ true
before_total e f d h = ground arith

pub not_before_self : (e : AuditEvent) → event_before e e ≡ false
not_before_self e = ground arith

pub not_before_back : (e f : AuditEvent) → event_before e f ≡ true → event_before f e ≡ false
not_before_back e f h = ground arith

All-weaken {ℓ κ μ} :
    {A : Type ℓ} {P : A → Type κ} {Q : A → Type μ} (xs : List A)
    → ((x : A) → P x → Q x)
    → All P xs
    → All Q xs
All-weaken [] f h = tt
All-weaken (x ∷ xs) f (h, hs) = (f x h, All-weaken xs f hs)

-- A property of all events is one of all events in order.
All-insert_by {κ} :
    (P : AuditEvent → Type κ) (e : AuditEvent) (es : List AuditEvent)
    → P e
    → All P es
    → All P (insert_by event_before e es)
unfolding insert_by
All-insert_by P e [] h hs = (h, tt)
All-insert_by P e (f ∷ es) h (k, ks) = elim (Bool-cases (event_before f e)) [
  | inl later ↦ rw later (k, All-insert_by P e es h ks)
  | inr sooner ↦ rw sooner (h, (k, ks))
]

All-order_by {κ} :
    (P : AuditEvent → Type κ) (es : List AuditEvent) → All P es → All P (order_by event_before es)
unfolding order_by
All-order_by P [] h = tt
All-order_by P (e ∷ es) (h, hs) =
    All-insert_by P e (order_by event_before es) h (All-order_by P es hs)

insert_by-IsOrdered :
    (e : AuditEvent) (es : List AuditEvent)
    → All (λ f. same_event_id e f ≡ false) es
    → IsOrdered es
    → IsOrdered (insert_by event_before e es)
unfolding insert_by
insert_by-IsOrdered e [] d o = (tt, tt)
insert_by-IsOrdered e (f ∷ es) (d, ds) (o, os) = elim (Bool-cases (event_before f e)) [
  | inl later ↦
      rw later
        (All-insert_by (λ g. event_before f g ≡ true) e es later o, insert_by-IsOrdered e es ds os)
  | inr sooner ↦
      let first = before_total e f d sooner in
      rw sooner ((first, All-weaken es (λ g h. before_trans e f g first h) o), (o, os))
]

All-of_exists :
    (keeps : AuditEvent → Bool) (es : List AuditEvent)
    → exists keeps es ≡ false
    → All (λ e. keeps e ≡ false) es
unfolding exists
All-of_exists keeps [] h = tt
All-of_exists keeps (e ∷ es) h = (ground arith, All-of_exists keeps es (ground arith))

pub order_by-IsOrdered :
    (es : List AuditEvent) → IsDistinct same_event_id es → IsOrdered (order_by event_before es)
unfolding order_by
order_by-IsOrdered [] d = tt
order_by-IsOrdered (e ∷ es) (d, ds) =
    insert_by-IsOrdered e (order_by event_before es)
      (All-order_by (λ f. same_event_id e f ≡ false) es (All-of_exists (same_event_id e) es d))
      (order_by-IsOrdered es ds)

pub All-select {κ} :
    (P : AuditEvent → Type κ) (keeps : AuditEvent → Bool) (es : List AuditEvent)
    → All P es
    → All P (select keeps es)
unfolding select
All-select P keeps [] h = tt
All-select P keeps (e ∷ es) (h, hs) = elim (Bool-cases (keeps e)) [
  | inl kept ↦ rw kept (h, All-select P keeps es hs)
  | inr dropped ↦ rw dropped (All-select P keeps es hs)
]

exists-select :
    (b keeps : AuditEvent → Bool) (es : List AuditEvent)
    → exists b es ≡ false
    → exists b (select keeps es) ≡ false
unfolding exists select
exists-select b keeps [] h = refl
exists-select b keeps (e ∷ es) h = ground (arith, exists-select b keeps es)

pub select-IsDistinct :
    (keeps : AuditEvent → Bool) (es : List AuditEvent)
    → IsDistinct same_event_id es
    → IsDistinct same_event_id (select keeps es)
unfolding select
select-IsDistinct keeps [] d = tt
select-IsDistinct keeps (e ∷ es) (d, ds) = elim (Bool-cases (keeps e)) [
  | inl kept ↦ rw kept (exists-select (same_event_id e) keeps es d, select-IsDistinct keeps es ds)
  | inr dropped ↦ rw dropped (select-IsDistinct keeps es ds)
]

insert_by_first :
    (e : AuditEvent) (es : List AuditEvent)
    → All (λ f. event_before e f ≡ true) es
    → insert_by event_before e es ≡ e ∷ es
unfolding insert_by
insert_by_first e [] h = refl
insert_by_first e (f ∷ es) (h, hs) = rw (not_before_back e f h) refl

select-insert_by :
    (keeps : AuditEvent → Bool) (e : AuditEvent) (es : List AuditEvent)
    → All (λ f. same_event_id e f ≡ false) es
    → IsOrdered es
    → select keeps (insert_by event_before e es)
      ≡ (if keeps e then insert_by event_before e (select keeps es) else select keeps es)
unfolding select insert_by
select-insert_by keeps e [] d o = ground arith
select-insert_by keeps e (f ∷ es) (d, ds) (o, os) = elim (Bool-cases (event_before f e)) [
  | inl later ↦ ground (arith, select-insert_by keeps e es ds os)
  | inr sooner ↦
      let first = before_total e f d sooner in
      let all = All-weaken es (λ g h. before_trans e f g first h) o in
      let cut =
        insert_by_first e (select keeps es)
          (All-select (λ g. event_before e g ≡ true) keeps es all) in
      ground (arith, cut)
]

-- Filtering and ordering may change places.
pub select-order_by :
    (keeps : AuditEvent → Bool) (es : List AuditEvent)
    → IsDistinct same_event_id es
    → select keeps (order_by event_before es) ≡ order_by event_before (select keeps es)
unfolding select order_by
select-order_by keeps [] d = refl
select-order_by keeps (e ∷ es) (d, ds) =
    let ih = select-order_by keeps es ds in
    let fresh =
      All-order_by (λ f. same_event_id e f ≡ false) es (All-of_exists (same_event_id e) es d) in
    let inserted =
      select-insert_by keeps e (order_by event_before es) fresh (order_by-IsOrdered es ds) in
    ground (arith, inserted, ih)

-- The rows of a listing behind a cursor, in order.
pub select_both :
    (a b : AuditEvent → Bool) (es : List AuditEvent)
    → select (λ e. a e && b e) es ≡ select b (select a es)
unfolding select
select_both a b [] = refl
select_both a b (e ∷ es) = ground (arith, select_both a b es)

pub select_absorb :
    (a b : AuditEvent → Bool) (es : List AuditEvent)
    → ((e : AuditEvent) → b e ≡ true → a e ≡ true)
    → select b (select a es) ≡ select b es
unfolding select
select_absorb a b [] h = refl
select_absorb a b (e ∷ es) h = ground (arith, h e, select_absorb a b es h)
