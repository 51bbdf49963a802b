-- ===== src/Telephony/Client.antt =====
-- The client object (tel_test/AppClient.cpp) and its registration (tel_test/ls_telephony_util.cpp). At
-- most one object is ever created, since nothing resets `mInstance`. None is a fault: the use of a
-- deleted object.
use multi_test.Prelude.{
  ℕ, zero, suc, ◌+◌, Bool, true, false, not, Option, none, some, if◌then◌else◌, ◌≡◌, ◌↔◌, ◌<◌,
  arith, Bool-cases, inl, inr, ◌==◌,
}
use mathlib.Core.Path.{subst}
use multi_test.Prelude.Fault.{◌>>=◌, ◌>>◌, require}
use multi_test.Telephony.Memory.{Statics}

-- The static variables of both files, and the fields of the object. `connects` counts the clients
-- that were added to the service.
pub record Phone (S : Type 0) : Type 0 where
  pub m_instance : Bool
  pub m_client_instance : Bool
  pub live : Bool
  pub s_register_client : Bool
  pub s_client_reg_called : Bool
  pub has_callbacks : Bool
  pub has_thread : Bool
  pub is_serviceready : Bool
  pub clients_added : ℕ
  pub statics : Statics
  pub service : S

-- The loop that asks for the service, by the tries left: `answers k` is whether the service is there
-- when k tries are left behind the one made.
unfoldable pub find_service : (ℕ → Bool) → ℕ → Bool
find_service answers zero = false
find_service answers (suc k) = let rest = find_service answers k in if answers k then true else rest

-- The counter is tested behind each failure: eleven tries.
abbrev pub service_tries : ℕ
service_tries = 11

module _ {S : Type 0} where
  -- `transact` with IF_REGISTER_CLIENT_ID.
  unfoldable pub add_client : Phone S → Phone S
  add_client w = record w { clients_added = w.clients_added + 1 }

  unfoldable pub app_client : (ℕ → Bool) → Phone S → Phone S
  unfolding find_service add_client
  app_client answers w =
      if find_service answers service_tries
      then record (add_client w) { live = true; is_serviceready = true; has_thread = true }
      else record w { live = true; is_serviceready = false }

  unfoldable pub get_instance : (ℕ → Bool) → Phone S → Phone S
  unfolding app_client
  get_instance answers w =
      if w.m_instance then w else record (app_client answers w) { m_instance = true }

  -- `callbacks` is whether the table is not NULL.
  unfoldable pub register_client_callback : Bool → Phone S → Phone S
  register_client_callback callbacks w =
      if not callbacks
      then w
      else if w.s_client_reg_called
      then w
      else record w { has_callbacks = true; s_client_reg_called = true }

  unfoldable pub register_client : (ℕ → Bool) → Bool → Phone S → Option (Phone S)
  unfolding get_instance register_client_callback
  register_client answers callbacks w =
      let w' : Phone S = record (get_instance answers w) { m_client_instance = true } in
      if w'.s_register_client
      then some w'
      else require w'.live
        >> some (record (register_client_callback callbacks w') { s_register_client = true })

  -- The pointers keep their values.
  unfoldable pub de_register_client : Phone S → Option (Phone S)
  de_register_client w =
      if w.m_client_instance
      then require w.live >> some (record w { live = false; s_register_client = false })
      else some (record w { s_register_client = false })

  -- In the thread that `binderDied` starts.
  unfoldable pub reconnect_phone_service : (ℕ → Bool) → Phone S → Option (Phone S × Bool)
  unfolding find_service add_client
  reconnect_phone_service answers w =
      require w.live
      >> (if find_service answers service_tries
          then some (record (add_client w) { is_serviceready = true }, true)
          else some (record w { is_serviceready = false }, false))

abbrev pub unused : {S : Type 0} → Statics → S → Phone S
unused statics service = record {
  m_instance = false;
  m_client_instance = false;
  live = false;
  s_register_client = false;
  s_client_reg_called = false;
  has_callbacks = false;
  has_thread = false;
  is_serviceready = false;
  clients_added = 0;
  statics = statics;
  service = service;
}

-- A registration from the start, with the object created.
registered : {S : Type 0} → (ℕ → Bool) → Bool → Phone S → Phone S
unfolding get_instance register_client_callback
registered answers callbacks w =
    record (register_client_callback callbacks
      (record (get_instance answers w) { m_client_instance = true })) { s_register_client = true }

register_client-unused :
    {S : Type 0} (statics : Statics) (service : S) (answers : ℕ → Bool) (callbacks : Bool)
    → register_client answers callbacks (unused statics service)
      ≡ some (registered answers callbacks (unused statics service))
unfolding register_client registered
register_client-unused statics service answers callbacks =
    ground (arith, Bool-cases (find_service answers service_tries))

registered-live :
    {S : Type 0} (statics : Statics) (service : S) (answers : ℕ → Bool) (callbacks : Bool)
    → let w = registered answers callbacks (unused statics service) in
      (w.live ≡ true) × (w.m_instance ≡ true) × (w.m_client_instance ≡ true)
unfolding registered
registered-live statics service answers callbacks =
    ground (arith, Bool-cases (find_service answers service_tries))

-- A client can be registered once in a process: behind the end of the first registration, another
-- registration and another end both use the deleted object.
register_client-once :
    {S : Type 0} (statics : Statics) (service : S) (answers again : ℕ → Bool)
    (callbacks callbacks' : Bool)
    → (w : Phone S) × ((register_client answers callbacks (unused statics service)
          >>= de_register_client)
        ≡ some w)
      × (register_client again callbacks' w ≡ none)
      × (de_register_client w ≡ none)
unfolding register_client de_register_client
register_client-once statics service answers again callbacks callbacks' =
    let w1 = registered answers callbacks (unused statics service) in
    let (live, instance_, client) = registered-live statics service answers callbacks in
    (
      record w1 { live = false; s_register_client = false },
      rw (register_client-unused statics service answers callbacks) (ground arith),
      ground arith,
      ground arith,
    )

-- A second registration without an end in between changes nothing.
pub register_client-again :
    {S : Type 0} (answers : ℕ → Bool) (callbacks : Bool) (w w' : Phone S) (again : ℕ → Bool)
    (callbacks' : Bool)
    → register_client answers callbacks w ≡ some w'
    → register_client again callbacks' w' ≡ some w'
unfolding register_client
register_client-again answers callbacks w w' again callbacks' h = ground arith

find_service-found :
    (answers : ℕ → Bool) (n : ℕ)
    → find_service answers n ≡ true
    → (k : ℕ) × (k < n) × (answers k ≡ true)
unfolding find_service
find_service-found answers zero h = ground arith
find_service-found answers (suc n) h = elim (Bool-cases (answers n)) [
  | inl e ↦ (n, omega arith, e)
  | inr e ↦
      let (k, lt, yes_k) = find_service-found answers n (ground arith) in (k, omega arith, yes_k)
]

find_service-finds :
    (answers : ℕ → Bool) (n k : ℕ) → k < n → answers k ≡ true → find_service answers n ≡ true
unfolding find_service
find_service-finds answers zero k h e = absurd (omega arith)
find_service-finds answers (suc n) k h e = elim (Bool-cases (k == n)) [
  | inl q ↦
      let same : k ≡ n = ground arith in
      let e' = subst (λ i. answers i ≡ true) same e in ground arith
  | inr q ↦ ground (arith, find_service-finds answers n k (ground arith) e)
]

-- A new client is ready exactly if one of its eleven tries finds the service, and then it is added
-- once; else it is created all the same, with no thread for its events.
get_instance-tries :
    {S : Type 0} (statics : Statics) (service : S) (answers : ℕ → Bool)
    → let w = get_instance answers (unused statics service) in
      ((w.is_serviceready ≡ true) ↔ ((k : ℕ) × (k < 11) × (answers k ≡ true)))
      × (w.live ≡ true)
      × (w.has_thread ≡ w.is_serviceready)
      × (w.clients_added ≡ (if w.is_serviceready then 1 else 0))
unfolding get_instance
get_instance-tries statics service answers =
    elim (Bool-cases (find_service answers service_tries)) [
      | inl e ↦ (
        ((λ h. find_service-found answers 11 e), (λ h. ground arith)),
        ground arith,
        ground arith,
        ground arith,
      )
      | inr e ↦ (
        ((λ h. ground arith), (λ h. ground (arith, find_service-finds answers 11 h.0 h.1 h.2))),
        ground arith,
        ground arith,
        ground arith,
      )
    ]
