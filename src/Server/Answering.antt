-- ===== src/Server/Answering.antt =====
-- crates/tryke_server/src/handler.rs: the answer to each request, with its id and its error.
use tryke.Prelude.{
  ◌≡◌, refl, sym, ap, ◌∙◌, subst, ◌⊎◌, inl, inr, Bool, true, false, List, [], ◌∷◌, ◌++◌, map,
  concat, Option, none, some, Text, append-nil, unwrap_or, is_empty, concat-map-append,
}
use tryke.Types.Outcome.{TestResult}
use tryke.Paths.Operations.{PathBuf}
use tryke.Discover.Files.{ℤ}
use tryke.Discover.State.{Discoverer}
use tryke.Discover.Rediscover.{rediscover}
use tryke.Discover.Change.{
  apply_changes, apply_to, eligible, rediscover_changed, ChangeImpact, default_impact,
}
use tryke.Discover.Tracked.{IsTracked}
use tryke.Discover.Impact.{apply_to_found}
use tryke.Discover.Changed.{rediscover_changed-IsTracked}
use tryke.Discover.Kept.{rediscover-IsTracked}
use tryke.Server.Protocol.{
  RequestMethod, ping, discover, did_change, run, unknown, RunParams, Request, method_not_found,
  invalid_params, Notification, discover_complete, Message, response, ran, error_response,
  notification,
}
use tryke.Server.Handler.{
  Connection, World, send_notification, change_found, apply_change, on_paths, on_run, on_method,
  Answer, answer_with,
}
use tryke.Server.Answers.{with_sent, send_message-open, completions, execute_run-sends}

module _ {V : Type 0} (w : World V) where
  -- The id and the error code of a reply; a notification is none.
  abbrev pub reply_of : Message V → List (V × Option ℤ)
  reply_of (response request_id result) = (request_id, none) ∷ []
  reply_of (error_response request_id code message) = (unwrap_or request_id w.null, some code) ∷ []
  reply_of (notification n) = []

  abbrev pub replies : List (Message V) → List (V × Option ℤ)
  replies ms = concat (map reply_of ms)

  abbrev pub refused {ℓ} : {A : Type ℓ} → Text ⊎ A → Option ℤ
  refused (inl e) = some invalid_params
  refused (inr a) = none

  -- The error that a request asks for, if any: an unknown method, and parameters that are missing
  -- or cannot be read.
  abbrev pub code_of : RequestMethod → Option V → Option ℤ
  code_of (unknown method) params = some method_not_found
  code_of did_change none = some invalid_params
  code_of did_change (some params) = refused (w.read_paths params)
  code_of run none = some invalid_params
  code_of run (some params) = refused (w.read_run params)
  code_of _ params = none

  abbrev pub reply_to : Option (Request V) → List (V × Option ℤ)
  reply_to none = []
  reply_to (some req) = (unwrap_or req.id w.null, code_of req.method req.params) ∷ []

  abbrev pub replies_to : List Text → List (V × Option ℤ)
  replies_to lines = concat (map (λ line. reply_to (w.read_request line)) lines)

  module _ (open_queue : (sent : List (Message V)) (m : Message V) → w.accepts sent m ≡ true) where
    -- An answer that keeps the invariants of the discoverer and the replies so far.
    pub record IsAnswer (c : Connection V) (reply : V × Option ℤ) (a : Answer w) : Type 0 where
      pub after : Connection V
      pub message : Message V
      pub answers : a ≡ some (after, message)
      pub tracked : IsTracked after.discoverer
      pub same_replies : replies after.sent ≡ replies c.sent
      pub reply_is : reply_of message ≡ reply ∷ []

    replies-notified :
        (ms : List (Message V)) (n : Notification)
        → replies (ms ++ notification n ∷ []) ≡ replies ms
    replies-notified ms n =
        concat-map-append reply_of ms (notification n ∷ []) ∙ append-nil (replies ms)

    replies-completions :
        (run_id : Text) (rs : List TestResult) → replies (completions w open_queue run_id rs) ≡ []
    replies-completions run_id [] = refl
    replies-completions run_id (r ∷ rs) = replies-completions run_id rs

    -- A run sends notifications only.
    replies-run :
        (xs : List (Message V)) (n m : Notification) (run_id : Text) (rs : List TestResult)
        → replies
            (xs ++ (notification n ∷ (completions w open_queue run_id rs ++ notification m ∷ [])))
          ≡ replies xs
    replies-run xs n m run_id rs =
        concat-map-append reply_of xs _
        ∙ (ap (λ l. replies xs ++ l)
              (replies-notified (completions w open_queue run_id rs) m
                ∙ replies-completions run_id rs)
            ∙ append-nil (replies xs))

    silent-IsAnswer :
        (c : Connection V) (m : Message V) (reply : V × Option ℤ)
        → IsTracked c.discoverer
        → reply_of m ≡ reply ∷ []
        → IsAnswer c reply (some (c, m))
    silent-IsAnswer c m reply t e = record {
      after = c;
      message = m;
      answers = refl;
      tracked = t;
      same_replies = refl;
      reply_is = e;
    }

    on_discover-IsAnswer :
        (c : Connection V) (m : Message V) (reply : V × Option ℤ)
        → IsTracked c.discoverer
        → reply_of m ≡ reply ∷ []
        → let (d, found) = rediscover w.analysis w.disk c.discoverer in
          IsAnswer c reply (
            answer_with w
              (send_notification w (record c { discoverer = d }) (discover_complete found))
              m)
    on_discover-IsAnswer c m reply t e =
        let (d, found) = rediscover w.analysis w.disk c.discoverer in
        let n = discover_complete found in
        record {
          after = with_sent w open_queue (record c { discoverer = d }) (notification n ∷ []);
          message = m;
          answers =
              ap (λ o. answer_with w o m)
                (send_message-open w open_queue (record c { discoverer = d }) (notification n));
          tracked = rediscover-IsTracked w.analysis w.disk c.discoverer t;
          same_replies = replies-notified c.sent n;
          reply_is = e;
        }

    -- A discoverer that keeps its invariants applies every set of changes.
    eligible_applied :
        (d : Discoverer) (ps : List PathBuf)
        → IsTracked d
        → (after : Discoverer) × (impact : ChangeImpact) × (apply_to w.analysis w.disk d ps
            ≡ some (after, impact))
          × IsTracked after
    eligible_applied d [] t = (d, default_impact, refl, t)
    eligible_applied d (p ∷ ps) t =
        let (impact, e, _, _) = apply_to_found w.analysis w.disk d p ps t in
        (
          (rediscover_changed w.analysis w.disk d (p ∷ ps)).0,
          impact,
          e,
          rediscover_changed-IsTracked w.analysis w.disk d (p ∷ ps) t,
        )

    change_found-IsAnswer :
        (c : Connection V) (d : Discoverer) (impact : ChangeImpact) (quiet : Bool) (m : Message V)
        (reply : V × Option ℤ)
        → IsTracked d
        → reply_of m ≡ reply ∷ []
        → is_empty impact.paths ≡ quiet
        → IsAnswer c reply (answer_with w (change_found w c (some (d, impact))) m)
    change_found-IsAnswer c d impact true m reply t e q = record {
      after = record c { discoverer = d };
      message = m;
      answers = rw q refl;
      tracked = t;
      same_replies = refl;
      reply_is = e;
    }
    change_found-IsAnswer c d impact false m reply t e q =
        let n = discover_complete impact.affected_tests in
        record {
          after = with_sent w open_queue (record c { discoverer = d }) (notification n ∷ []);
          message = m;
          answers = rw q (
              ap (λ o. answer_with w o m)
                (send_message-open w open_queue (record c { discoverer = d }) (notification n)));
          tracked = t;
          same_replies = replies-notified c.sent n;
          reply_is = e;
        }

    apply_change-IsAnswer :
        (c : Connection V) (p : PathBuf) (ps : List PathBuf) (m : Message V) (reply : V × Option ℤ)
        → IsTracked c.discoverer
        → reply_of m ≡ reply ∷ []
        → IsAnswer c reply (answer_with w (apply_change w c (p ∷ ps)) m)
    unfolding apply_change apply_changes
    apply_change-IsAnswer c p ps m reply t e =
        let (d, impact, found, kept) =
          eligible_applied c.discoverer (eligible w.disk c.discoverer (p ∷ ps)) t in
        rw found (change_found-IsAnswer c d impact (is_empty impact.paths) m reply kept e refl)

    execute_run-IsAnswer :
        (c : Connection V) (req : Request V) (params : RunParams)
        → IsTracked c.discoverer
        → IsAnswer c (unwrap_or req.id w.null, none) (on_run w c req (inr params))
    execute_run-IsAnswer c req params t =
        let (after, summary, e, sends, _, _, same) = execute_run-sends w open_queue c params in
        record {
          after = after;
          message = response (unwrap_or req.id w.null) (ran params.run_id summary);
          answers = rw (e, on_run) refl;
          tracked = subst (λ d. IsTracked d) (sym same) t;
          same_replies =
              ap replies sends ∙ replies-run c.sent _ _ params.run_id (w.results_of after.pool);
          reply_is = refl;
        }

    pub on_method-IsAnswer :
        (c : Connection V) (req : Request V) (method : RequestMethod) (params : Option V)
        → IsTracked c.discoverer
        → IsAnswer c
            (unwrap_or req.id w.null, code_of method params)
            (on_method w c req method params)
    on_method-IsAnswer c req ping params t = silent-IsAnswer c _ _ t refl
    on_method-IsAnswer c req discover params t = on_discover-IsAnswer c _ _ t refl
    on_method-IsAnswer c req did_change none t = silent-IsAnswer c _ _ t refl
    on_method-IsAnswer c req did_change (some params) t = paths (w.read_paths params)
      where
        paths :
            (r : Text ⊎ List PathBuf)
            → IsAnswer c (unwrap_or req.id w.null, refused r) (on_paths w c req r)
        paths (inl e) = silent-IsAnswer c _ _ t refl
        paths (inr []) = on_discover-IsAnswer c _ _ t refl
        paths (inr (p ∷ ps)) = apply_change-IsAnswer c p ps _ _ t refl
    on_method-IsAnswer c req run none t = silent-IsAnswer c _ _ t refl
    on_method-IsAnswer c req run (some params) t = runs (w.read_run params)
      where
        runs :
            (r : Text ⊎ RunParams)
            → IsAnswer c (unwrap_or req.id w.null, refused r) (on_run w c req r)
        runs (inl e) = silent-IsAnswer c _ _ t refl
        runs (inr p) = execute_run-IsAnswer c req p t
    on_method-IsAnswer c req (unknown method) params t = silent-IsAnswer c _ _ t refl
