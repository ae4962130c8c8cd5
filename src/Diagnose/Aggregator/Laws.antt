-- ===== src/Diagnose/Aggregator/Laws.antt =====
-- The windows of the aggregator, and what Submit and a timer do to them.
use digcore.Base.{
  ◌≡◌, refl, sym, ap, ◌∙◌, Bool, true, String, Option, none, some, List, [], ◌∷◌, ◌++◌, append-nil,
  str_eq, eq_iff, if◌then◌else◌, if-branch, arith, subst, Bool-cases, Option-cases, inl, inr,
  is_some, length, length-append,
}
use digcore.Base.Dict
use digcore.Base.Dict.{Dict}
use digcore.Types.Event.{Event}
use digcore.Diagnose.Aggregator.{
  CheckSnapshot, DiagnoseRequest, DiagnoseConfig, Aggregator, target_of, key_of, takes, new_request,
  entered, enter, submit, fire,
}

module _ {ℓ} {R : Type ℓ} where
  abbrev pub request_key : DiagnoseRequest R → String
  request_key req = key_of req.plugin req.target

  -- The window of a key is open exactly while its timer is; its request belongs to the key, and has a
  -- snapshot for each event.
  pub record IsValid (a : Aggregator R) : Type ℓ where
    pub timed : (k : String) → is_some (Dict.get a.timers k) ≡ is_some (Dict.get a.pending k)
    pub keyed :
        (k : String) (req : DiagnoseRequest R)
        → Dict.get a.pending k ≡ some req
        → request_key req ≡ k
    pub paired :
        (k : String) (req : DiagnoseRequest R)
        → Dict.get a.pending k ≡ some req
        → length req.checks ≡ length req.events

  abbrev pub events_of : Option (DiagnoseRequest R) → List Event
  events_of (some req) = req.events
  events_of none = []

  -- The events that wait for a key.
  unfoldable pub waiting : Aggregator R → String → List Event
  unfolding Dict.get
  waiting a k = events_of (Dict.get a.pending k)

  module _ (a : Aggregator R) (event : Event) (snapshot : CheckSnapshot) (plugin : String) (ref : R)
      (cfg : DiagnoseConfig) where
    abbrev pub key : String
    key = key_of plugin (target_of event plugin)

    timers-enter :
        (k : String)
        → is_some (Dict.get a.timers key) ≡ is_some (Dict.get a.pending key)
        → is_some (Dict.get a.timers k) ≡ is_some (Dict.get a.pending k)
        → is_some (Dict.get (enter a event snapshot plugin ref cfg).timers k)
          ≡ is_some (Dict.get (enter a event snapshot plugin ref cfg).pending k)
    unfolding enter
    timers-enter k h g =
        let stored = entered (Dict.get a.pending key) event snapshot plugin ref cfg in
        elim (Bool-cases (is_some (Dict.get a.pending key))) [
          | inl old ↦ rw (old, Dict.get-put a.pending key stored k) (ground (arith, eq_iff key k))
          | inr new ↦
              rw (new, Dict.get-put a.pending key stored k, Dict.get-put a.timers key true k)
                (ground (arith, eq_iff key k))
        ]

    request_key-entered :
        ((req : DiagnoseRequest R) → Dict.get a.pending key ≡ some req → request_key req ≡ key)
        → request_key (entered (Dict.get a.pending key) event snapshot plugin ref cfg) ≡ key
    unfolding entered new_request
    request_key-entered v = elim (Option-cases (Dict.get a.pending key)) [
      | inl new ↦ rw new refl
      | inr old ↦ rw old.1 (v old.0 old.1)
    ]

    entered_paired :
        ((req : DiagnoseRequest R)
          → Dict.get a.pending key ≡ some req
          → length req.checks ≡ length req.events)
        → let req = entered (Dict.get a.pending key) event snapshot plugin ref cfg in
          length req.checks ≡ length req.events
    unfolding entered new_request
    entered_paired v = elim (Option-cases (Dict.get a.pending key)) [
      | inl new ↦ rw new refl
      | inr old ↦ rw old.1 (
          omega (
            arith,
            v old.0 old.1,
            length-append old.0.checks (snapshot ∷ []),
            length-append old.0.events (event ∷ []),
          ))
    ]

    events_of-entered :
        (o : Option (DiagnoseRequest R))
        → (entered o event snapshot plugin ref cfg).events ≡ events_of o ++ (event ∷ [])
    unfolding entered new_request
    events_of-entered none = refl
    events_of-entered (some req) = refl

    pending-enter :
        (k : String)
        → Dict.get (enter a event snapshot plugin ref cfg).pending k ≡ (
            if str_eq key k
            then some (entered (Dict.get a.pending key) event snapshot plugin ref cfg)
            else Dict.get a.pending k)
    unfolding enter
    pending-enter k =
        Dict.get-put a.pending key (entered (Dict.get a.pending key) event snapshot plugin ref cfg)
          k

    waiting-enter_self :
        waiting (enter a event snapshot plugin ref cfg) key ≡ waiting a key ++ (event ∷ [])
    unfolding waiting
    waiting-enter_self =
        let self : str_eq key key ≡ true = (eq_iff key key).1 refl in
        ap events_of (
          pending-enter key
          ∙ ap
              (λ b.
                if b
                then some (entered (Dict.get a.pending key) event snapshot plugin ref cfg)
                else Dict.get a.pending key)
              self)
        ∙ events_of-entered (Dict.get a.pending key)

    pub waiting-enter :
        (k : String)
        → waiting (enter a event snapshot plugin ref cfg) k
          ≡ waiting a k ++ (if str_eq key k then event ∷ [] else [])
    unfolding enter waiting
    waiting-enter k =
        let stored = entered (Dict.get a.pending key) event snapshot plugin ref cfg in
        elim (Bool-cases (str_eq key k)) [
          | inr other ↦
              rw (Dict.get-put a.pending key stored k, other) (sym (append-nil (waiting a k)))
          | inl this ↦ rw this (
              subst
                (λ j.
                  waiting (enter a event snapshot plugin ref cfg) j ≡ waiting a j ++ (event ∷ []))
                ((eq_iff key k).0 this) waiting-enter_self)
        ]

    -- What the key's request is after `enter`.
    enter_entry :
        (k : String) (req : DiagnoseRequest R)
        → Dict.get (enter a event snapshot plugin ref cfg).pending k ≡ some req
        → str_eq key k ≡ true
        → entered (Dict.get a.pending key) event snapshot plugin ref cfg ≡ req
    unfolding enter
    enter_entry k req h this =
        let stored = entered (Dict.get a.pending key) event snapshot plugin ref cfg in
        let same = rw (Dict.get-put a.pending key stored k, this) at h in cc

    pub enter-IsValid : IsValid a → IsValid (enter a event snapshot plugin ref cfg)
    unfolding enter
    enter-IsValid v =
        let stored = entered (Dict.get a.pending key) event snapshot plugin ref cfg in
        record {
          timed = λ k. timers-enter k (v.timed key) (v.timed k);
          keyed = λ k req h. elim (Bool-cases (str_eq key k)) [
            | inr other ↦ v.keyed k req (rw (Dict.get-put a.pending key stored k, other) at h)
            | inl this ↦
                ap request_key (sym (enter_entry k req h this))
                ∙ request_key-entered (v.keyed key)
                ∙ (eq_iff key k).0 this
          ];
          paired = λ k req h. elim (Bool-cases (str_eq key k)) [
            | inr other ↦ v.paired k req (rw (Dict.get-put a.pending key stored k, other) at h)
            | inl this ↦
                let e = enter_entry k req h this in
                subst (λ q. length q.checks ≡ length q.events) e (entered_paired (v.paired key))
          ];
        }

  -- Submit keeps the invariant.
  pub submit-IsValid :
      (ai : Bool) (a : Aggregator R) (event : Event) (snapshot : CheckSnapshot) (plugin : String)
      (ref : R) (cfg : DiagnoseConfig)
      → IsValid a
      → IsValid (submit ai a event snapshot plugin ref cfg)
  unfolding submit
  submit-IsValid ai a event snapshot plugin ref cfg v =
      if-branch IsValid (takes ai event cfg) (enter-IsValid a event snapshot plugin ref cfg v) v

  pub fire-IsValid : (a : Aggregator R) (key : String) → IsValid a → IsValid (fire a key)
  unfolding fire
  fire-IsValid a key v = record {
    timed = λ k.
        rw (Dict.get-del a.pending key k, Dict.get-del a.timers key k) (ground (arith, v.timed k));
    keyed = λ k req h. elim (Bool-cases (str_eq key k)) [
      | inr other ↦ v.keyed k req (rw (Dict.get-del a.pending key k, other) at h)
      | inl this ↦ absurd (cc (rw (Dict.get-del a.pending key k, this) at h))
    ];
    paired = λ k req h. elim (Bool-cases (str_eq key k)) [
      | inr other ↦ v.paired k req (rw (Dict.get-del a.pending key k, other) at h)
      | inl this ↦ absurd (cc (rw (Dict.get-del a.pending key k, this) at h))
    ];
  }
