-- ===== src/Server/Session/Laws.antt =====
-- Every session's cancel function is called when the session leaves, and not before.
use digcore.Base.{
  ℕ, ◌+◌, ◌≡◌, refl, String, Option, none, some, List, [], ◌∷◌, ◌==◌, if◌then◌else◌, str_eq, eq_iff,
  arith, Bool-cases, Option-cases, inl, inr,
}
use digcore.Base.Dict
use digcore.Base.Dict.{Dict}
use digcore.Server.Session.{
  RemoteSession, SessionManager, call, add, remove, cancel_loop, cancel_all,
}

-- 1 for the cancel function `c`, and 0 for another or none.
unfoldable pub holds : ℕ → Option ℕ → ℕ
holds c none = 0
holds c (some d) = if d == c then 1 else 0

-- How often `c` was called, and how many sessions have it.
unfoldable pub calls : ℕ → List ℕ → ℕ
unfolding holds
calls c [] = 0
calls c (d ∷ ds) = holds c (some d) + calls c ds

unfoldable pub owners : ℕ → Dict RemoteSession → ℕ
owners c [] = 0
owners c ((id, s) ∷ d) = holds c s.cancel + owners c d

calls-call : (c : ℕ) (o : Option ℕ) (ds : List ℕ) → calls c (call o ds) ≡ calls c ds + holds c o
unfolding call calls holds
calls-call c none ds = omega arith
calls-call c (some d) [] = omega arith
calls-call c (some d) (x ∷ ds) = omega (arith, calls-call c (some d) ds)

calls-cancel_loop :
    (c : ℕ) (ds : List ℕ) (d : Dict RemoteSession)
    → calls c (cancel_loop ds d) ≡ calls c ds + owners c d
unfolding cancel_loop owners
calls-cancel_loop c ds [] = omega arith
calls-cancel_loop c ds ((id, s) ∷ d) =
    omega (arith, calls-cancel_loop c (call s.cancel ds) d, calls-call c s.cancel ds)

owners-put :
    (c : ℕ) (d : Dict RemoteSession) (k : String) (s : RemoteSession)
    → Dict.get d k ≡ none
    → owners c (Dict.put d k s) ≡ owners c d + holds c s.cancel
unfolding owners Dict.get Dict.put
owners-put c [] k s h = omega arith
owners-put c ((j, x) ∷ d) k s h = elim (Bool-cases (str_eq j k)) [
  | inl same ↦ absurd (ground arith)
  | inr differ ↦ rw differ (omega (arith, owners-put c d k s (rw differ at h)))
]

owners-del_absent :
    (c : ℕ) (d : Dict RemoteSession) (k : String)
    → Dict.get d k ≡ none
    → owners c (Dict.del d k) ≡ owners c d
unfolding owners Dict.get Dict.del
owners-del_absent c [] k h = refl
owners-del_absent c ((j, x) ∷ d) k h = elim (Bool-cases (str_eq j k)) [
  | inl same ↦ absurd (ground arith)
  | inr differ ↦ rw differ (omega (arith, owners-del_absent c d k (rw differ at h)))
]

owners-del :
    (c : ℕ) (d : Dict RemoteSession) (k : String) (s : RemoteSession)
    → Dict.IsMap d
    → Dict.get d k ≡ some s
    → owners c (Dict.del d k) + holds c s.cancel ≡ owners c d
unfolding owners Dict.get Dict.del
owners-del c [] k s m h = cc
owners-del c ((j, x) ∷ d) k s m h = elim (Bool-cases (str_eq j k)) [
  | inl same ↦
      let e : j ≡ k = (eq_iff j k).0 same in
      let gone = owners-del_absent c d k (rw e at (m.0)) in
      let this : x ≡ s = cc (rw same at h) in rw (same, this) (omega (arith, gone))
  | inr differ ↦ rw differ (omega (arith, owners-del c d k s m.1 (rw differ at h)))
]

pub data Step : Type 0 where
  adds : RemoteSession → Step
  removes : String → Step
  cancels_all : Step

unfoldable pub act : SessionManager → Step → SessionManager
unfolding add remove cancel_all
act m (adds s) = (add m s).0
act m (removes id) = remove m id
act m cancels_all = cancel_all m

unfoldable pub acts : SessionManager → List Step → SessionManager
unfolding act
acts m [] = m
acts m (s ∷ steps) = acts (act m s) steps

-- How many sessions with the cancel function `c` the steps add.
unfoldable pub taken : ℕ → SessionManager → List Step → ℕ
unfolding act
taken c m [] = 0
taken c m (adds s ∷ steps) =
    (if (add m s).1 then holds c s.cancel else 0) + taken c (act m (adds s)) steps
taken c m (removes id ∷ steps) = taken c (act m (removes id)) steps
taken c m (cancels_all ∷ steps) = taken c (act m cancels_all) steps

abbrev pub accounted : ℕ → SessionManager → ℕ
accounted c m = calls c m.cancelled + owners c m.sessions

act-adds :
    (c : ℕ) (m : SessionManager) (s : RemoteSession)
    → Dict.IsMap m.sessions
    → (accounted c (act m (adds s)) ≡ accounted c m + (if (add m s).1 then holds c s.cancel else 0))
      × Dict.IsMap (act m (adds s)).sessions
unfolding act add
act-adds c m s v = elim (Option-cases (Dict.get m.sessions s.session_id)) [
  | inr old ↦ rw (act, add, old.1) (omega arith, v)
  | inl absent ↦
      rw (act, add, absent)
        (
          omega (arith, owners-put c m.sessions s.session_id s absent),
          Dict.put-IsMap m.sessions s.session_id s v,
        )
]

act-removes :
    (c : ℕ) (m : SessionManager) (id : String)
    → Dict.IsMap m.sessions
    → (accounted c (act m (removes id)) ≡ accounted c m) × Dict.IsMap (act m (removes id)).sessions
unfolding act remove
act-removes c m id v = elim (Option-cases (Dict.get m.sessions id)) [
  | inl absent ↦ rw (remove, absent) (refl, v)
  | inr found ↦
      rw (remove, found.1)
        (
          omega (
            arith,
            calls-call c found.0.cancel m.cancelled,
            owners-del c m.sessions id found.0 v found.1,
          ),
          Dict.del-IsMap m.sessions id v,
        )
]

act-cancels_all : (c : ℕ) (m : SessionManager) → accounted c (act m cancels_all) ≡ accounted c m
unfolding act cancel_all owners
act-cancels_all c m = omega (arith, calls-cancel_loop c m.cancelled m.sessions)

-- Whatever sequence of add, remove and cancelAll runs, from a manager with each id once: for every
-- cancel function, the number of its calls and the number of registered sessions that have it add up
-- to what they were before and the number of sessions with it that add took.
pub accounted-acts :
    (c : ℕ) (m : SessionManager) (steps : List Step)
    → Dict.IsMap m.sessions
    → accounted c (acts m steps) ≡ accounted c m + taken c m steps
unfolding acts taken
accounted-acts c m [] v = omega arith
accounted-acts c m (adds s ∷ steps) v =
    let (e, w) = act-adds c m s v in omega (arith, e, accounted-acts c (act m (adds s)) steps w)
accounted-acts c m (removes id ∷ steps) v =
    let (e, w) = act-removes c m id v in
    omega (arith, e, accounted-acts c (act m (removes id)) steps w)
accounted-acts c m (cancels_all ∷ steps) v =
    omega (arith, act-cancels_all c m, accounted-acts c (act m cancels_all) steps tt)
