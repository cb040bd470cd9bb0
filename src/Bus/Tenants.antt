-- ===== src/Bus/Tenants.antt =====
-- `stats` for one tenant: which messages it counts.
use Prim.Native.String
use text.Mathlib.Text.{starts_with}
use text.Mathlib.TextLemmas.{append_assoc, append_cancel_left, append-nil}
use text.Mathlib.TextPositions.{starts_with-append}
use shelfwise.Prelude.{
  ℕ, ◌+◌, String, ◌≡◌, refl, sym, ◌∙◌, subst, ◌≢◌, ap, true, false, some, [], ◌∷◌, arith, length,
  keep_if, keep_if-append, length-append, text_key, ==_ne,
}
use shelfwise.Prelude.Text.{strip}
use shelfwise.Bus.{
  Bus, stream_name, id_text, acked_under, stats_stream, wants, next_message, publish, ack, stats,
}

-- A tenant id that `stream_name` keeps as it is.
abbrev pub IsPlain : String → Type 0
IsPlain t = (strip t ≡ t) × (t ≢ "")

stream_name-plain : (t : String) → IsPlain t → stream_name t ≡ String.◌++◌ "shelfwise:events:" t
unfolding stream_name
stream_name-plain t (same, full) = rw (same, ==_ne full) refl

-- The tenant id `t:u`.
abbrev pub under : String → String → String
under t u = String.◌++◌ t (String.◌++◌ ":" u)

regroup :
    (a b c d e : String)
    → String.◌++◌ (String.◌++◌ a (String.◌++◌ b (String.◌++◌ c d))) e
      ≡ String.◌++◌ (String.◌++◌ (String.◌++◌ a b) c) (String.◌++◌ d e)
regroup a b c d e = simp append_assoc

-- The text of an acknowledgement under the tenant `t:u` begins with the stream of `t` and a colon.
acked_under-colon :
    (t u : String) (n : ℕ)
    → IsPlain t
    → IsPlain (under t u)
    → acked_under (some (stream_name t)) (stream_name (under t u), n) ≡ true
acked_under-colon t u n p q =
    rw (stream_name-plain t p, stream_name-plain _ q)
      (subst
        (λ (x : String). starts_with x (String.◌++◌ (String.◌++◌ "shelfwise:events:" t) ":") ≡ true)
        (sym (regroup "shelfwise:events:" t ":" u (String.◌++◌ ":" (id_text n))))
        (starts_with-append (String.◌++◌ (String.◌++◌ "shelfwise:events:" t) ":")
          (String.◌++◌ u (String.◌++◌ ":" (id_text n)))))

colon_full : (u : String) → String.◌++◌ ":" u ≢ ""
colon_full u e =
    let hit : true ≡ false =
      sym (starts_with-append ":" u) ∙ ap (λ (x : String). starts_with x ":") e in
    absurd (ground arith)

-- The two tenants have different streams.
streams_differ :
    (t u : String) → IsPlain t → IsPlain (under t u) → stream_name (under t u) ≢ stream_name t
streams_differ t u p q e =
    let bare : String.◌++◌ "shelfwise:events:" (under t u) ≡ String.◌++◌ "shelfwise:events:" t =
      sym (stream_name-plain _ q) ∙ e ∙ stream_name-plain t p in
    let inner : under t u ≡ String.◌++◌ t "" =
      append_cancel_left "shelfwise:events:" _ _ bare ∙ sym (append-nil t) in
    colon_full u (append_cancel_left t _ _ inner)

module _ {E : Type 0} (t u : String) (event : E) (b : Bus E) where
  -- `stats` for a tenant `t` counts the acknowledgements of any tenant `t:u` as those of `t`: when
  -- an event of `t:u` is published and acknowledged, the acknowledged messages of `t` grow by one
  -- while its messages in total stay as they are.
  pub stats_counts_foreign_acks :
      IsPlain t
      → IsPlain (under t u)
      → let n = (publish (under t u) event b).0 in
        let b' = ack (stream_name (under t u)) n (publish (under t u) event b).1 in
        ((stats (some t) b').acked_messages ≡ (stats (some t) b).acked_messages + 1)
        × ((stats (some t) b').messages_total ≡ (stats (some t) b).messages_total)
  unfolding stats ack publish
  stats_counts_foreign_acks p q =
      let n = length b.messages + 1 in
      let apart = ==_ne (streams_differ t u p q) in
      let mine =
        keep_if-append (wants {E = E} (some (stream_name t))) b.messages
          (next_message (under t u) event b ∷ []) in
      let seen =
        keep_if-append (acked_under (some (stream_name t))) b.acked
          ((stream_name (under t u), n) ∷ []) in
      let asked : stats_stream (some t) ≡ some (stream_name t) = rw (==_ne p.1) refl in
      let colon = acked_under-colon t u n p q in
      let mine' = keep_if (wants {E = E} (some (stream_name t))) b.messages in
      let seen' = keep_if (acked_under (some (stream_name t))) b.acked in
      rw (asked, mine, seen)
        (
          rw (colon, length-append seen' ((stream_name (under t u), n) ∷ [])) refl,
          rw (apart, length-append mine' []) (omega arith),
        )
