-- ===== src/Client/Lifecycle.antt =====
-- The life of a name in the registry, against an automaton with three states.
use text.Mathlib.TextEquality.{eq_iff}
use aigo.Base.{
  String, ◌≡◌, refl, true, false, some, List, [], ◌∷◌, str_eq, if◌then◌else◌, arith, ap, ◌∙◌,
}
use aigo.Base.Assoc.{get, has, has-put, has-delete, get-put, get-delete}
use aigo.Engine.{Engine}
use aigo.Client.{
  Client, new_client, is_disabled, register_engine, register_some, unregister_engine,
  disable_engine, enable_engine,
}

-- What a client can know of a name.
pub data Status : Type 0 where
  absent enabled disabled : Status

-- The calls that change the registry.
pub data Call (W : Type 0) : Type 0 where
  register : String → Engine W → Call W
  unregister : String → Call W
  disable : String → Call W
  enable : String → Call W

module _ {W : Type 0} where
  unfoldable pub status : Client W → String → Status
  status c n =
      if has c.engines n
      then if is_disabled c n then Status.disabled else Status.enabled
      else Status.absent

  -- The client after a call, whatever the call returns.
  unfoldable pub perform : Client W → Call W → Client W
  perform c (Call.register n e) = (register_engine c n (some e)).1
  perform c (Call.unregister n) = (unregister_engine c n).1
  perform c (Call.disable n) = (disable_engine c n).1
  perform c (Call.enable n) = (enable_engine c n).1

  abbrev pub target : Call W → String
  target (Call.register n e) = n
  target (Call.unregister n) = n
  target (Call.disable n) = n
  target (Call.enable n) = n

  -- The automaton: the next state of the name that the call is about.
  unfoldable pub next : Call W → Status → Status
  next (Call.register n e) Status.absent = if str_eq n "" then Status.absent else Status.enabled
  next (Call.register n e) s = s
  next (Call.unregister n) s = Status.absent
  next (Call.disable n) Status.absent = Status.absent
  next (Call.disable n) s = Status.disabled
  next (Call.enable n) Status.absent = Status.absent
  next (Call.enable n) s = Status.enabled

  -- A name that is not registered is not marked as disabled.
  abbrev pub IsClean : Client W → Type 0
  IsClean c = (n : String) → has c.engines n ≡ false → is_disabled c n ≡ false

  perform-IsClean : (c : Client W) (call : Call W) → IsClean c → IsClean (perform c call)
  unfolding perform register_engine register_some unregister_engine disable_engine enable_engine
      is_disabled
  perform-IsClean c (Call.register m e) h n =
      λ k. ground (arith, h n, has-put c.engines m n e, eq_iff m n)
  perform-IsClean c (Call.unregister m) h n =
      λ k. ground (arith, h n, has-delete c.engines m n, get-delete c.disabled m n, eq_iff m n)
  perform-IsClean c (Call.disable m) h n =
      λ k. ground (arith, h n, get-put c.disabled m n true, eq_iff m n)
  perform-IsClean c (Call.enable m) h n =
      λ k. ground (arith, h n, get-delete c.disabled m n, eq_iff m n)

  -- One call is one transition of the automaton for the name that it is about, and changes no other name.
  status-perform :
      (c : Client W) (call : Call W) (n : String)
      → IsClean c
      → status (perform c call) n
        ≡ (if str_eq (target call) n then next call (status c n) else status c n)
  unfolding status next perform register_engine register_some unregister_engine disable_engine
      enable_engine is_disabled
  status-perform c (Call.register m e) n h =
      ground (arith, h n, has-put c.engines m n e, eq_iff m n)
  status-perform c (Call.unregister m) n h =
      ground (arith, h n, has-delete c.engines m n, get-delete c.disabled m n, eq_iff m n)
  status-perform c (Call.disable m) n h =
      ground (arith, h n, get-put c.disabled m n true, eq_iff m n)
  status-perform c (Call.enable m) n h = ground (arith, h n, get-delete c.disabled m n, eq_iff m n)

  -- A sequence of calls, and the automaton run over the calls about one name.
  unfoldable pub run : Client W → List (Call W) → Client W
  run c [] = c
  run c (call ∷ calls) = run (perform c call) calls

  unfoldable pub track : String → Status → List (Call W) → Status
  track n s [] = s
  track n s (call ∷ calls) = track n (if str_eq (target call) n then next call s else s) calls

  status-run_from :
      (c : Client W) (calls : List (Call W)) (n : String)
      → IsClean c
      → status (run c calls) n ≡ track n (status c n) calls
  unfolding run track
  status-run_from c [] n h = refl
  status-run_from c (call ∷ calls) n h =
      status-run_from (perform c call) calls n (perform-IsClean c call h)
      ∙ ap (λ s. track n s calls) (status-perform c call n h)

  -- From a new client, after any calls, each name is absent, enabled or disabled as the automaton
  -- says that reads only the calls about that name.
  pub status-run :
      (calls : List (Call W)) (n : String)
      → status (run new_client calls) n ≡ track n Status.absent calls
  unfolding status has get is_disabled
  status-run calls n = status-run_from new_client calls n (λ m k. refl)
