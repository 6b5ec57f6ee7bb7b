-- ===== src/Realtime/Replay/Resuming.antt =====
-- internal/realtime/attachment.go: a resume replays what the client has missed.
use ably_server.Base.{
  ℕ, zero, suc, ◌+◌, ◌≤◌, ◌<◌, ◌≡◌, refl, sym, ap, ap₂, ◌∙◌, inl, inr, true, false, List, [], ◌∷◌,
  ◌++◌, append-nil, none, some, Bytes, arith, Bool-cases, lex_lt, bytes_eq, bytes_eq_iff, length,
  take, leb,
}
use ably_server.Protocol.{ChannelMessage}
use ably_server.Storage.{is_blank}
use ably_server.Storage.Pages.{kind_message, HistoryPage, reversed}
use ably_server.Memory.{ChannelStore}
use ably_server.Memory.Invariant.{IsConsistent}
use ably_server.Memory.History.{row_items, raw_history, history}
use ably_server.Memory.History.Walk.{page_items, limited}
use ably_server.Memory.History.Bounds.{filtered, is_between}
use ably_server.Memory.History.Reading.{found, raw_history-wanted}
use ably_server.Realtime.Replay.{
  Replay, backwards_query, reverse_and_normalise, newer, resume_with, by_resume_page, nothing_at,
  compute_resume_replay,
}
use ably_server.Realtime.Replay.Pages.{
  Tagged, reversed-reversed, length-reversed, page_items-reverse_and_normalise, past_prefix,
  any_behind, Filled, page_items-newer, raw_history-Filled, length-page_items,
}
use ably_server.Realtime.Replay.Gaps.{gap_query, missed, behind, filtered_same, no_cursor}
use ably_server.Realtime.Replay.Parts.{
  AllUnder, prefix_of, prefix_of_take, none_behind, take_short, take_within, wanted-IsSplit,
}

none_kept : (ss : List Bytes) → filtered (λ t. false) ss ≡ []
none_kept [] = refl
none_kept (s ∷ ss) = none_kept ss

-- At the anchor nothing is missed.
missed_self :
    (resume_from : Bytes) (cs : ChannelStore)
    → is_blank resume_from ≡ false
    → missed resume_from resume_from cs ≡ []
missed_self resume_from cs h =
    no_cursor (gap_query resume_from resume_from) _ refl
    ∙ ap (λ ss. row_items true kind_message (found ss cs.by_cs))
        (filtered_same _ _ cs.order outside ∙ none_kept cs.order)
  where
    outside : (t : Bytes) → is_between (gap_query resume_from resume_from) t ≡ false
    outside t = unfold is_between in ground (arith, h)

abbrev HasReplayed : Replay → Bytes → Tagged → Type 0
HasReplayed r resume_from items =
    (page_items kind_message r.replay ≡ items)
    × (r.resumed ≡ true)
    × (r.error ≡ none)
    × (r.attach_point ≡ resume_from)

-- What is made of a page that begins with what was missed, newest first.
resume_with-missed :
    (replay_cap : ℕ) (resume_from : Bytes) (cms : List ChannelMessage) (gap older : Tagged)
    → Filled cms
    → AllUnder (behind resume_from) older
    → AllUnder (lex_lt resume_from) (reversed gap)
    → page_items kind_message cms ≡ take (suc replay_cap) (reversed gap ++ older)
    → length gap ≤ replay_cap
    → HasReplayed (resume_with replay_cap resume_from cms) resume_from gap
unfolding resume_with
resume_with-missed replay_cap resume_from cms gap older f old new shown fits =
    let (kept, seen) = page_items-newer resume_from cms f in
    elim (Bool-cases (newer resume_from cms).1) [
      | inl matched ↦
          let reached : any_behind resume_from (take (suc replay_cap) (reversed gap ++ older))
              ≡ true =
            ap (any_behind resume_from) (sym shown) ∙ sym seen ∙ matched in
          let items : page_items kind_message (newer resume_from cms).0 ≡ reversed gap =
            kept
            ∙ ap (past_prefix resume_from) shown
            ∙ prefix_of_take resume_from (suc replay_cap) (reversed gap ++ older) reached
            ∙ prefix_of resume_from (reversed gap) older new old in
          rw matched (
            page_items-reverse_and_normalise (newer resume_from cms).0
                ∙ ap reversed items
                ∙ reversed-reversed gap,
            refl,
            refl,
            refl,
          )
      | inr unmatched ↦
          let unreached : any_behind resume_from (take (suc replay_cap) (reversed gap ++ older))
              ≡ false =
            ap (any_behind resume_from) (sym shown) ∙ sym seen ∙ unmatched in
          let rest : older ≡ [] =
            none_behind resume_from (suc replay_cap) (reversed gap) older old unreached
              (omega (arith, length-reversed gap)) in
          let items : page_items kind_message cms ≡ reversed gap =
            shown
            ∙ ap (λ l. take (suc replay_cap) (reversed gap ++ l)) rest
            ∙ ap (take (suc replay_cap)) (append-nil (reversed gap))
            ∙ take_short (suc replay_cap) (reversed gap) (omega (arith, length-reversed gap)) in
          let few : leb (length cms) replay_cap ≡ true =
            ground (arith, length-page_items cms f, ap length items, length-reversed gap) in
          rw (unmatched, few)
            (
              page_items-reverse_and_normalise cms ∙ ap reversed items ∙ reversed-reversed gap,
              refl,
              refl,
              refl,
            )
    ]

-- A resume on a consistent channel that has missed at most as many messages as the replay cap allows
-- replays exactly those, oldest first, each in its entry: what an unlimited read from the client's
-- cursor to the anchor returns. It attaches at the cursor, with RESUMED set and no error.
pub compute_resume_replay-missed :
    (replay_cap : ℕ) (anchor resume_from : Bytes) (cs : ChannelStore)
    → IsConsistent cs
    → is_blank resume_from ≡ false
    → length (missed resume_from anchor cs) ≤ replay_cap
    → (r : Replay) × (compute_resume_replay false replay_cap anchor resume_from cs ≡ some r)
      × (page_items kind_message r.replay ≡ missed resume_from anchor cs)
      × (r.resumed ≡ true)
      × (r.error ≡ none)
      × (r.attach_point ≡ resume_from)
unfolding compute_resume_replay history by_resume_page
compute_resume_replay-missed replay_cap anchor resume_from cs v named fits =
    elim (Bool-cases (bytes_eq resume_from anchor)) [
      | inl same ↦ (
        nothing_at resume_from true none,
        rw same refl,
        sym (missed_self resume_from cs named)
            ∙ ap (λ s. missed resume_from s cs) ((bytes_eq_iff resume_from anchor).0 same),
        refl,
        refl,
        refl,
      )
      | inr other ↦
          let q = backwards_query 0 anchor (replay_cap + 1) in
          let (page, read, shown, more) = raw_history-wanted q cs v in
          let w = wanted-IsSplit resume_from anchor (replay_cap + 1) cs v named in
          let one_more : replay_cap + 1 ≡ suc replay_cap = omega arith in
          let replayed =
            resume_with-missed replay_cap resume_from page.channel_messages
              (missed resume_from anchor cs) w.older (raw_history-Filled q cs page refl read) w.old
              w.new (shown ∙ ap₂ limited one_more w.parts) fits in
          (
            resume_with replay_cap resume_from page.channel_messages,
            rw other (rw (read, by_resume_page) refl),
            replayed.0,
            replayed.1,
            replayed.2,
            replayed.3,
          )
    ]

nothing_behind :
    (s : Bytes) (n : ℕ) (xs : Tagged) → AllUnder (lex_lt s) xs → any_behind s (take n xs) ≡ false
nothing_behind s zero xs h = refl
nothing_behind s (suc n) [] h = refl
nothing_behind s (suc n) ((t, it) ∷ xs) h = rw h.0 (nothing_behind s n xs h.1)

length-take : (n : ℕ) (xs : Tagged) → n ≤ length xs → length (take n xs) ≡ n
length-take zero xs h = refl
length-take (suc n) [] h = absurd (omega arith)
length-take (suc n) (x ∷ xs) h = ap suc (length-take n xs (omega arith))

-- Where the client has missed more messages than the replay cap and one, and batches make the read
-- of the newest of them no more entries than the cap, the resume is reported as complete, with
-- RESUMED set and no error, but only one message more than the cap is replayed.
pub compute_resume_replay-incomplete :
    (replay_cap : ℕ) (anchor resume_from : Bytes) (cs : ChannelStore) (page : HistoryPage)
    → IsConsistent cs
    → is_blank resume_from ≡ false
    → replay_cap + 1 < length (missed resume_from anchor cs)
    → raw_history (backwards_query 0 anchor (replay_cap + 1)) cs ≡ some page
    → length page.channel_messages ≤ replay_cap
    → (r : Replay) × (compute_resume_replay false replay_cap anchor resume_from cs ≡ some r)
      × (r.resumed ≡ true)
      × (r.error ≡ none)
      × (length (page_items kind_message r.replay) ≡ replay_cap + 1)
unfolding compute_resume_replay history by_resume_page
compute_resume_replay-incomplete replay_cap anchor resume_from cs page v named many read few =
    let q = backwards_query 0 anchor (replay_cap + 1) in
    let gap = missed resume_from anchor cs in
    let (page', read', shown, more) = raw_history-wanted q cs v in
    let w = wanted-IsSplit resume_from anchor (replay_cap + 1) cs v named in
    let one_more : replay_cap + 1 ≡ suc replay_cap = omega arith in
    let same_page : page' ≡ page = ground (arith, read, read') in
    let room : suc replay_cap ≤ length (reversed gap) = omega (arith, length-reversed gap) in
    let items : page_items kind_message page.channel_messages
        ≡ take (suc replay_cap) (reversed gap) =
      ap (λ (p : HistoryPage). page_items kind_message p.channel_messages) (sym same_page)
      ∙ shown
      ∙ ap₂ limited one_more w.parts
      ∙ take_within (suc replay_cap) (reversed gap) w.older room in
    let unmatched : (newer resume_from page.channel_messages).1 ≡ false =
      (page_items-newer resume_from page.channel_messages
        (raw_history-Filled q cs page refl read)).1
      ∙ ap (any_behind resume_from) items
      ∙ nothing_behind resume_from (suc replay_cap) (reversed gap) w.new in
    let fits : leb (length page.channel_messages) replay_cap ≡ true = ground (arith, few) in
    let other : bytes_eq resume_from anchor ≡ false =
      elim (Bool-cases (bytes_eq resume_from anchor)) [
        | inr d ↦ d
        | inl same ↦
            let empty : gap ≡ [] =
              ap (λ s. missed resume_from s cs) (sym ((bytes_eq_iff resume_from anchor).0 same))
              ∙ missed_self resume_from cs named in
            absurd (ground (arith, ap length empty, many))
      ] in
    let made : resume_with replay_cap resume_from page.channel_messages ≡ record {
      replay = reverse_and_normalise page.channel_messages;
      attach_point = resume_from;
      resumed = true;
      error = none;
    } =
      unfold resume_with in rw (unmatched, fits) refl in
    (
      resume_with replay_cap resume_from page.channel_messages,
      rw other (rw (read, by_resume_page) refl),
      ap (λ (r : Replay). r.resumed) made,
      ap (λ (r : Replay). r.error) made,
      ap (λ (r : Replay). length (page_items kind_message r.replay)) made
          ∙ ap length (page_items-reverse_and_normalise page.channel_messages)
          ∙ length-reversed (page_items kind_message page.channel_messages)
          ∙ ap length items
          ∙ length-take (suc replay_cap) (reversed gap) room
          ∙ omega arith,
    )
