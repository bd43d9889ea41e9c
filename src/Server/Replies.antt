-- ===== src/Server/Replies.antt =====
-- crates/tryke_server/src/handler.rs: each request that can be read has one reply, with its id.
use tryke.Prelude.{
  ◌≡◌, refl, sym, ap, ◌∙◌, true, List, [], ◌∷◌, ◌++◌, map, concat, Option, none, some, Text,
  append_assoc, append-nil, concat-map-append,
}
use tryke.Discover.Tracked.{IsTracked}
use tryke.Server.Protocol.{Request, Message}
use tryke.Server.Handler.{Connection, World, on_request, replied, handle_request, serve}
use tryke.Server.Answers.{with_sent, send_message-open}
use tryke.Server.Answering.{reply_of, replies, reply_to, replies_to, on_method-IsAnswer}

module _ {V : Type 0} (w : World V)
    (open_queue : (sent : List (Message V)) (m : Message V) → w.accepts sent m ≡ true) where
  -- What the connection has replied once it has handled a line.
  handled :
      (c : Connection V) (line : Text)
      → IsTracked c.discoverer
      → (after : Connection V) × (handle_request w c line ≡ some after)
        × IsTracked after.discoverer
        × (replies w after.sent ≡ replies w c.sent ++ reply_to w (w.read_request line))
  unfolding handle_request
  handled c line t = go (w.read_request line)
    where
      go :
          (r : Option (Request V))
          → (after : Connection V) × (on_request w c r ≡ some after)
            × IsTracked after.discoverer
            × (replies w after.sent ≡ replies w c.sent ++ reply_to w r)
      go none = (c, refl, t, sym (append-nil (replies w c.sent)))
      go (some req) =
          let a = on_method-IsAnswer w open_queue c req req.method req.params t in
          (
            with_sent w open_queue a.after (a.message ∷ []),
            ap (replied w) a.answers ∙ send_message-open w open_queue a.after a.message,
            a.tracked,
            concat-map-append (reply_of w) a.after.sent (a.message ∷ [])
                ∙ (ap (λ l. l ++ concat (map (reply_of w) (a.message ∷ []))) a.same_replies
                    ∙ ap (λ l. replies w c.sent ++ l)
                        (append-nil (reply_of w a.message) ∙ a.reply_is)),
          )

  -- While the client reads, a connection whose discoverer keeps its invariants handles every line:
  -- each request that can be read is replied to once, in order, with its id, or `null` where it has
  -- none; the reply is an error exactly when the method is unknown or the parameters are missing or
  -- refused, with that error's code, and a line that is no request has no reply.
  pub serve-replies :
      (lines : List Text) (c : Connection V)
      → IsTracked c.discoverer
      → (after : Connection V) × (serve w c lines ≡ some after)
        × IsTracked after.discoverer
        × (replies w after.sent ≡ replies w c.sent ++ replies_to w lines)
  unfolding serve
  serve-replies [] c t = (c, refl, t, sym (append-nil (replies w c.sent)))
  serve-replies (line ∷ lines) c t =
      let (mid, e, kept, here) = handled c line t in
      let (after, rest, tracked, there) = serve-replies lines mid kept in
      (
        after,
        rw (e, serve, rest) refl,
        tracked,
        there
            ∙ (ap (λ l. l ++ replies_to w lines) here
                ∙ append_assoc (replies w c.sent) (reply_to w (w.read_request line))
                    (replies_to w lines)),
      )
