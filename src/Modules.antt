-- ===== src/Modules.antt =====
-- pandora-module-utils/src/lib.rs: `RequestFilterResult` and `RequestFilter`, and the handler that
-- pandora-module-utils-macros/src/derive_request_filter.rs derives for a struct of handlers.
pub mod Chain
use pandora_web_server.Base.{◌≡◌, refl, ◌⊎◌, inl, inr, Option, none, some}

-- `Result<A, Box<Error>>`.
pub data Result (E A : Type 0) : Type 0 where
  ok : A → Result E A
  err : E → Result E A

-- To split on a computed result and keep the equation.
pub Result-cases :
    {E A : Type 0} (r : Result E A) → ((e : E) × (r ≡ err e)) ⊎ ((a : A) × (r ≡ ok a))
Result-cases (err e) = inl (e, refl)
Result-cases (ok a) = inr (a, refl)

pub data RequestFilterResult : Type 0 where
  response_sent : RequestFilterResult
  handled : RequestFilterResult
  unhandled : RequestFilterResult

-- What a phase of a request leaves: its result, the session and the handler's context.
abbrev pub Phase : Type 0 → Type 0 → Type 0 → Type 0
Phase S C A = S → C → A × S × C

-- The trait `RequestFilter` for sessions `S`, contexts `C`, errors `E` and upstream peers `P`. An
-- error leaves the session as the handler has changed it.
pub record Handler (S C E P : Type 0) : Type 0 where
  -- the modules of pingora that the handler adds to the session, before its phases
  pub init_downstream_modules : S → S
  pub early_request_filter : Phase S C (Result E Unit)
  pub request_filter : Phase S C (Result E RequestFilterResult)
  pub upstream_peer : Phase S C (Result E (Option P))
  pub logging : Option E → S → C → S × C
  pub new_ctx : C

module _ {S E P : Type 0} where
  -- The trait's own methods, which are those of a struct without fields as well.
  unfoldable pub no_handler : Handler S Unit E P
  no_handler = record {
    init_downstream_modules = λ session. session;
    early_request_filter = λ session ctx. (ok tt, session, ctx);
    request_filter = λ session ctx. (ok unhandled, session, ctx);
    upstream_peer = λ session ctx. (ok none, session, ctx);
    logging = λ e session ctx. (session, ctx);
    new_ctx = tt;
  }

module _ {S E C D : Type 0} where
  -- `…await?` on the first field, before the other fields run.
  abbrev pub early_then :
      Phase S D (Result E Unit) → D → Result E Unit × S × C → Result E Unit × S × (C × D)
  early_then rest d (err e, session, c) = (err e, session, (c, d))
  early_then rest d (ok _, session, c) =
      let (result, after, d') = rest session d in (result, after, (c, d'))

  abbrev pub filter_then :
      Phase S D (Result E RequestFilterResult)
      → D
      → Result E RequestFilterResult × S × C
      → Result E RequestFilterResult × S × (C × D)
  filter_then rest d (err e, session, c) = (err e, session, (c, d))
  filter_then rest d (ok unhandled, session, c) =
      let (result, after, d') = rest session d in (result, after, (c, d'))
  filter_then rest d (ok handled, session, c) = (ok handled, session, (c, d))
  filter_then rest d (ok response_sent, session, c) = (ok response_sent, session, (c, d))

module _ {S E P C D : Type 0} where
  abbrev pub peer_then :
      Phase S D (Result E (Option P))
      → D
      → Result E (Option P) × S × C
      → Result E (Option P) × S × (C × D)
  peer_then rest d (err e, session, c) = (err e, session, (c, d))
  peer_then rest d (ok none, session, c) =
      let (result, after, d') = rest session d in (result, after, (c, d'))
  peer_then rest d (ok (some peer), session, c) = (ok (some peer), session, (c, d))

  -- The derived handler of a struct: its first field, and the handler of the other ones. The
  -- context is the struct of their contexts.
  infixr 5 ◌and◌
  unfoldable pub ◌and◌ : Handler S C E P → Handler S D E P → Handler S (C × D) E P
  first and rest = record {
    init_downstream_modules =
        λ session. rest.init_downstream_modules (first.init_downstream_modules session);
    early_request_filter = λ session (c, d).
        early_then rest.early_request_filter d (first.early_request_filter session c);
    request_filter =
        λ session (c, d). filter_then rest.request_filter d (first.request_filter session c);
    upstream_peer =
        λ session (c, d). peer_then rest.upstream_peer d (first.upstream_peer session c);
    logging = λ e session (c, d).
        let (after, c') = first.logging e session c in
        let (last, d') = rest.logging e after d in (last, (c', d'));
    new_ctx = (first.new_ctx, rest.new_ctx);
  }

-- The derived `try_from`: the first field whose conversion fails gives the error.
unfoldable pub try_from_pair :
    {E A B F G : Type 0} → (A → Result E F) → (B → Result E G) → A × B → Result E (F × G)
try_from_pair first rest (a, b) = elim (first a) [
  | err e ↦ err e
  | ok f ↦ elim (rest b) [ err e ↦ err e | ok g ↦ ok (f, g) ]
]
