-- ===== src/Modules/Chain.antt =====
-- The handlers of a struct run one after the other, up to the first one that decides.
use pandora_web_server.Base.{◌≡◌, ◌≢◌, Option, List, [], ◌∷◌}
use pandora_web_server.Modules.{Result, ok, Phase, Handler, no_handler, ◌and◌}

module _ {S E P C : Type 0} where
  -- The contexts of the handlers.
  abbrev pub Contexts : List (Handler S C E P) → Type 0
  Contexts [] = Unit
  Contexts (h ∷ handlers) = C × Contexts handlers

  -- The handler that is derived for a struct of handlers.
  unfoldable pub chain : (handlers : List (Handler S C E P)) → Handler S (Contexts handlers) E P
  unfolding no_handler ◌and◌
  chain [] = no_handler
  chain (h ∷ handlers) = h and chain handlers

  -- A phase runs for the handlers in their order as long as each leaves the request to the next one
  -- with the result `passing`. The first other result is that of the whole, and the handlers behind it
  -- do not run.
  pub data RunsTo {A : Type 0} (phase : Handler S C E P → Phase S C (Result E A)) (passing : A)
      : (handlers : List (Handler S C E P))
        → S
        → Contexts handlers
        → Result E A
        → S
        → Contexts handlers
        → Type 0 where
    ended : (s : S) → RunsTo phase passing [] s tt (ok passing) s tt
    left :
        (h : Handler S C E P) (handlers : List (Handler S C E P)) (s s1 s2 : S) (c c1 : C)
        (cs cs' : Contexts handlers) (r : Result E A)
        → phase h s c ≡ (ok passing, s1, c1)
        → RunsTo phase passing handlers s1 cs r s2 cs'
        → RunsTo phase passing (h ∷ handlers) s (c, cs) r s2 (c1, cs')
    decided :
        (h : Handler S C E P) (handlers : List (Handler S C E P)) (s s1 : S) (c c1 : C)
        (cs : Contexts handlers) (r : Result E A)
        → phase h s c ≡ (r, s1, c1)
        → r ≢ ok passing
        → RunsTo phase passing (h ∷ handlers) s (c, cs) r s1 (c1, cs)

  -- The logging runs for all handlers.
  pub data LogsAll (e : Option E)
      : (handlers : List (Handler S C E P))
        → S
        → Contexts handlers
        → S
        → Contexts handlers
        → Type 0 where
    no_log : (s : S) → LogsAll e [] s tt s tt
    log :
        (h : Handler S C E P) (handlers : List (Handler S C E P)) (s s1 s2 : S) (c c1 : C)
        (cs cs' : Contexts handlers)
        → h.logging e s c ≡ (s1, c1)
        → LogsAll e handlers s1 cs s2 cs'
        → LogsAll e (h ∷ handlers) s (c, cs) s2 (c1, cs')
