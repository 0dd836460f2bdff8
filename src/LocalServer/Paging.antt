-- ===== src/LocalServer/Paging.antt =====
-- apps/leave/src/local_server.rs: what a client learns that reads the events of the workspace page by
-- page, each behind the cursor of the page before.
use leave_cli.Prelude.{
  ℕ, zero, suc, ◌+◌, ◌≤◌, ◌≡◌, refl, sym, ap, ◌∙◌, some, List, [], ◌∷◌, ◌++◌, arith, map, take,
  get_elem?,
}
use mathlib.Core.List.{map-append}
use leave_cli.Prelude.Text.{Text}
use leave_cli.Store.{EventRecord, Tables, is_after, events_after}
use leave_cli.Store.Replay.{
  IsAscending, outstanding, events_after-resume, events_after-take, IsAscending-keep,
  IsAscending-take,
}
use leave_cli.Acp.Events.{Serde, from_record}
use leave_cli.LocalServer.Handlers.{workspace_events, event_page, last_sequence}

module _ {V : Type 0} (serde : Serde V) where
  -- The cursor of a page that ends with an event is the sequence of that event.
  cursor-take :
      (n : ℕ) (es : List EventRecord) (e : EventRecord)
      → get_elem? es n ≡ some e
      → last_sequence (map (from_record serde) (take (suc n) es)) ≡ e.sequence
  unfolding from_record
  cursor-take n [] e h = cc
  cursor-take zero (x ∷ es) e h = ground arith
  cursor-take (suc n) (x ∷ []) e h = cc
  cursor-take (suc n) (x ∷ y ∷ es) e h = cursor-take n (y ∷ es) e h

  empty_cursor :
      (records : List EventRecord)
      → (event_page serde records).events ≡ []
      → (event_page serde records).next_cursor ≡ 0
  unfolding event_page
  empty_cursor [] h = refl
  empty_cursor (x ∷ records) h = cc

  -- A page of a workspace whose events ascend, which ends with an outstanding event, gives that event's
  -- sequence as its cursor; the page and the next one behind that cursor together are the first
  -- outstanding events, as many as both were asked for or all if there are fewer, each once and in
  -- ascending order. This is for two pages of 1000 events at most together, read from unchanged tables. A page without events gives
  -- the cursor 0, from which a client would start anew.
  pub workspace_events-resume :
      (id : Text) (cursor n m : ℕ) (t : Tables) (e : EventRecord)
      → IsAscending t.events
      → suc n + m ≤ 1000
      → get_elem? (outstanding id cursor t) n ≡ some e
      → let page = workspace_events serde id cursor (suc n) t in
        let next = workspace_events serde id page.next_cursor m t in
        let all = take (suc n + m) (outstanding id cursor t) in
        (page.next_cursor ≡ e.sequence)
        × (page.events ++ next.events ≡ map (from_record serde) all)
        × IsAscending all
        × (next.events ≡ [] → next.next_cursor ≡ 0)
  unfolding workspace_events event_page
  workspace_events-resume id cursor n m t e asc fits h =
      let reached : (workspace_events serde id cursor (suc n) t).next_cursor ≡ e.sequence =
        ap (λ es. last_sequence (map (from_record serde) es))
          (events_after-take id cursor (suc n) t (omega arith))
        ∙ cursor-take n (outstanding id cursor t) e h in
      (
        reached,
        ap
              (λ c.
                map (from_record serde) (events_after id cursor (suc n) t)
                ++ map (from_record serde) (events_after id c m t))
              reached
            ∙ sym (
                map-append (from_record serde) (events_after id cursor (suc n) t)
                  (events_after id e.sequence m t))
            ∙ ap (map (from_record serde)) (
                events_after-resume id cursor n m t e asc fits h
                ∙ events_after-take id cursor (suc n + m) t fits),
        IsAscending-take (suc n + m) _ (IsAscending-keep (is_after id cursor) t.events asc),
        empty_cursor (events_after id _ m t),
      )
