-- ===== src/Server/Rpc/Relayed.antt =====
-- The replies of the HTTP handlers as answers of the Connect handlers.
use false_flag_demo.Base.{
  ℕ, Bool, true, false, Option, none, some, ◌≡◌, refl, ◌==◌, ◌||◌, if◌then◌else◌, arith, ap, ◌∙◌,
}
use false_flag_demo.Base.Result.{Result, ok, err, ◌>>=◌}
use false_flag_demo.Server.{
  Refusal, status, panicked, out_of_fuel, not_found_or_error, or_status, write_store_err, accept,
  read, Connection,
}
use false_flag_demo.Server.Rpc.{
  RpcError, connect_code, unbounded, code_not_found, code_already_exists, code_internal,
  code_invalid_argument, ConnectCode, connect_error, or_connect_error, or_code,
}
use false_flag_demo.Store.{Db, StoreError, is_conflict}
use false_flag_demo.Store.Lookups.{found}

-- The code that stands for a status.
unfoldable pub code_of : ℕ → ConnectCode
code_of n =
    if n == 404
    then code_not_found
    else if n == 409
    then code_already_exists
    else if (n == 400) || (n == 422)
    then code_invalid_argument
    else code_internal

abbrev pub refused : Refusal → RpcError
refused (status n) = connect_code (code_of n)
refused panicked = connect_code code_internal
refused out_of_fuel = unbounded

module _ {A B : Type 0} (f : A → B) where
  -- A refusal by its code, and of a reply what `f` keeps.
  abbrev pub relay : Result Refusal A → Result RpcError B
  relay (ok x) = ok (f x)
  relay (err r) = err (refused r)

-- What a handler keeps beside its status.
abbrev pub answered : {A : Type 0} → ℕ × A → A
answered out = out.1

-- What a handler that commits keeps beside its status.
abbrev pub body : {A : Type 0} → (ℕ × A) × Db → A × Db
body out = (out.0.1, out.1)

module _ {A B C : Type 0} (f : B → C) where
  -- Handlers agree if they agree step by step.
  pub relay->>= :
      (x' : Result RpcError A) (x : Result Refusal A) (k' : A → Result RpcError C)
      (k : A → Result Refusal B)
      → x' ≡ relay (λ a. a) x
      → ((a : A) → k' a ≡ relay f (k a))
      → (x' >>= k') ≡ relay f (x >>= k)
  relay->>= x' (ok a) k' k e same = ap (λ r. r >>= k') e ∙ same a
  relay->>= x' (err r) k' k e same = ap (λ r. r >>= k') e

module _ {A : Type 0} where
  pub relay-found :
      (o : Option A) → or_connect_error (found o) ≡ relay (λ a. a) (not_found_or_error (found o))
  unfolding or_connect_error connect_error not_found_or_error code_of
  relay-found none = refl
  relay-found (some x) = refl

  pub relay-write_store_err :
      (r : Result StoreError A) → or_connect_error r ≡ relay (λ a. a) (write_store_err r)
  unfolding or_connect_error connect_error write_store_err code_of is_conflict
  relay-write_store_err r = ground arith

  pub relay-or_status :
      (n : ℕ) (o : Option A) → or_code (code_of n) o ≡ relay (λ a. a) (or_status n o)
  relay-or_status n none = refl
  relay-or_status n (some x) = refl

  -- A read of a row, where the tables can be read.
  pub relay-read :
      (conn : Connection) (db : Db) (query : Db → Option A)
      → conn.reading ≡ ok db
      → or_connect_error (read conn (λ tables. found (query tables)))
        ≡ relay (λ a. a) (not_found_or_error (read conn (λ tables. found (query tables))))
  relay-read conn db query reads = rw reads (relay-found (query db))

  -- The end of a handler that writes.
  pub relay-committed :
      (n : ℕ) (r : Result StoreError (A × Db))
      → or_connect_error r ≡ relay body (write_store_err r >>= λ out. ok ((n, out.0), out.1))
  unfolding or_connect_error connect_error write_store_err code_of is_conflict
  relay-committed n r = ground arith

pub relay-accept :
    (b : Bool)
    → (if b then ok tt else err (connect_code code_invalid_argument)) ≡ relay (λ a. a) (accept b)
unfolding code_of
relay-accept true = refl
relay-accept false = refl
