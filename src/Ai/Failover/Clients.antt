-- ===== src/Ai/Failover/Clients.antt =====
-- Which clients the constructors of failover.go make, and PinModel.
use digcore.Base.{
  ◌≡◌, ◌⊎◌, inl, inr, refl, Bool, true, false, String, append, List, [], ◌∷◌, ◌||◌, if◌then◌else◌,
  str_eq, eq_iff, is_some, arith, Bool-cases, if-branch,
}
use digcore.Base.Dict
use digcore.Base.Dict.{Dict}
use digcore.Ai.Retry.{Reply, answer, failure, nothing, panic}
use digcore.Ai.Failover.{
  FailoverClient, AiConfig, add_clients, new_gateway_failover_client, new_failover_client_for_scene,
  model_of, pin_model, model_client,
}

-- Each model of the priority list has a client, and so has the pinned one.
module _ {ℓ} {C : Type ℓ} where
  abbrev pub Resolve : Dict C → List String → Type 0
  Resolve clients [] = Unit {0}
  Resolve clients (name ∷ names) = (is_some (Dict.get clients name) ≡ true) × Resolve clients names

  if-Resolve :
      (xs ys : List String) (c d : Dict C) (b : Bool)
      → Resolve c xs
      → Resolve d ys
      → Resolve (if b then c else d) (if b then xs else ys)
  if-Resolve xs ys c d true p q = p
  if-Resolve xs ys c d false p q = q

  pub record IsValid (fc : FailoverClient C) : Type 0 where
    pub listed : Resolve fc.clients fc.priority
    pub pin : (fc.pinned ≡ "") ⊎ (is_some (Dict.get fc.clients fc.pinned) ≡ true)

  -- PinModel keeps the clients valid; it fails exactly for a name that is not empty and has no client,
  -- and then changes nothing; else the model is pinned.
  pub pin_model_lem :
      (fc : FailoverClient C) (name : String)
      → IsValid fc
      → let (ok, fc') = pin_model fc name in
        IsValid fc'
        × ((ok ≡ false) ⊎ (fc'.pinned ≡ name))
        × (ok ≡ (str_eq name "" || is_some (model_client fc name)))
  unfolding pin_model model_client
  pin_model_lem fc name v = elim (Bool-cases (str_eq name "")) [
    | inl empty ↦
        rw empty
          (record { listed = v.listed; pin = inl ((eq_iff name "").0 empty) }, inr refl, refl)
    | inr full ↦ elim (Bool-cases (is_some (Dict.get fc.clients name))) [
      | inl known ↦ rw (full, known) (record { listed = v.listed; pin = inr known }, inr refl, refl)
      | inr unknown ↦ rw (full, unknown) (v, inl refl, refl)
    ]
  ]

module _ {ℓ ℓ'} {C : Type ℓ} {M : Type ℓ'} (no_model : M) (new_chat_client : M → C)
    (cfg : AiConfig M) where
  add_clients_keeps :
      (names : List String) (clients : Dict C) (j : String)
      → is_some (Dict.get clients j) ≡ true
      → is_some (Dict.get (add_clients no_model new_chat_client cfg clients names) j) ≡ true
  unfolding add_clients
  add_clients_keeps [] clients j h = h
  add_clients_keeps (name ∷ names) clients j h = add_clients_keeps names _ j (
      ground (
        arith,
        Dict.get-put clients name (new_chat_client (model_of no_model new_chat_client cfg name)) j,
      ))

  add_clients-Resolve :
      (names : List String) (clients : Dict C)
      → Resolve (add_clients no_model new_chat_client cfg clients names) names
  unfolding add_clients
  add_clients-Resolve [] clients = tt
  add_clients-Resolve (name ∷ names) clients =
      let c = new_chat_client (model_of no_model new_chat_client cfg name) in
      let stored : is_some (Dict.get (Dict.put clients name c) name) ≡ true =
        ground (arith, Dict.get-put clients name c name, eq_iff name name) in
      (
        add_clients_keeps names (Dict.put clients name c) name stored,
        add_clients-Resolve names (Dict.put clients name c),
      )

  gateway_listed :
      (scene : String) (made : Reply C)
      → let fc = new_gateway_failover_client no_model new_chat_client cfg scene made in
        Resolve fc.clients fc.priority
  unfolding new_gateway_failover_client
  gateway_listed scene (answer c) =
      let name = append "server:" scene in
      let first = Dict.put [] name c in
      let stored : is_some (Dict.get first name) ≡ true =
        ground (arith, Dict.get-put [] name c name, eq_iff name name) in
      if-Resolve (name ∷ cfg.model_priority) (name ∷ [])
        (add_clients no_model new_chat_client cfg first cfg.model_priority) first
        cfg.gateway_fallback
        (
          add_clients_keeps cfg.model_priority first name stored,
          add_clients-Resolve cfg.model_priority first,
        )
        (stored, tt)
  gateway_listed scene (failure e) =
      if-Resolve cfg.model_priority []
        (add_clients no_model new_chat_client cfg [] cfg.model_priority) [] cfg.gateway_fallback
        (add_clients-Resolve cfg.model_priority []) tt
  gateway_listed scene nothing =
      if-Resolve cfg.model_priority []
        (add_clients no_model new_chat_client cfg [] cfg.model_priority) [] cfg.gateway_fallback
        (add_clients-Resolve cfg.model_priority []) tt
  gateway_listed scene panic =
      if-Resolve cfg.model_priority []
        (add_clients no_model new_chat_client cfg [] cfg.model_priority) [] cfg.gateway_fallback
        (add_clients-Resolve cfg.model_priority []) tt

  -- Whatever the configuration, and whether or not the gateway's client could be made,
  -- NewFailoverClientForScene gives each name of the priority list a client, and pins none.
  pub new_failover_client_for_scene-IsValid :
      (scene : String) (made : Reply C)
      → IsValid (new_failover_client_for_scene no_model new_chat_client cfg scene made)
        × ((new_failover_client_for_scene no_model new_chat_client cfg scene made).pinned ≡ "")
  unfolding new_failover_client_for_scene new_gateway_failover_client
  new_failover_client_for_scene-IsValid scene made =
      if-branch (λ (fc : FailoverClient C). IsValid fc × (fc.pinned ≡ "")) cfg.gateway_enabled
        (record { listed = gateway_listed scene made; pin = inl refl }, refl)
        (record { listed = add_clients-Resolve cfg.model_priority []; pin = inl refl }, refl)
