-- ===== src/Watcher/Sending/Reach.antt =====
-- A change reaches syncthing.
use correlation.Base.{
  is_empty_ne, Text, codes, List, [], ◌∷◌, ◌++◌, map, ◌≡◌, ◌≢◌, inl, inr, ap, ◌∙◌, All, Any, Bool,
  true, false, none, some, lookup, ltb, IsDistinct, has_prefix,
}
use mathlib.Core.Path.{subst}
use correlation.Paths.{slash, clean}
use correlation.Strconv.{itoa_nat}
use correlation.Query.{encode}
use correlation.Query.RoundTrip.{IsBytes, read_query}
use correlation.Syncthing.{
  Http, Client, Request, post_method, scan, scan_values, handle_request, http_post,
}
use correlation.Syncthing.Requests.{next_pairs, seconds, read_query-scan_values}
use correlation.Aggregate.{as_relative, trim_folder, sorted_unique_and_clean_paths}
use correlation.Aggregate.Selection.{Covers}
use correlation.Aggregate.Scores.{FitsStatus}
use correlation.Tracker.{Tracker, Tick, dir_vs_files, ripe, flush}
use correlation.Tracker.Branches.{flush_once}
use correlation.Tracker.Flush.{flush-Covers}
use correlation.Tracker.Flush.Entries.{is_due}
use correlation.Watcher.{Watcher, inform_change}
use correlation.Watcher.Sending.{asked, inform_all, flush_through}

module _ (h : Http) (c : Client) (w : Watcher) where
  -- the request for a scan of these paths, with the API key of the client
  abbrev pub scan_request : List Text → Request
  scan_request subs = record {
    method = post_method;
    url =
        c.endpoint
        ++ codes "/rest/"
        ++ (codes "db/scan?" ++ encode (scan_values h w.folder_id subs w.config.delay_scan));
    api_key = some c.api_key;
    body = [];
  }

  -- What a server reads from the query of a scan request for these paths.
  abbrev pub Reads : List Text → Text → Type 0
  Reads subs query =
      read_query query
      ≡ (codes "folder", w.folder_id)
        ∷ (next_pairs h (ltb 0 (seconds h w.config.delay_scan))
              (itoa_nat (seconds h w.config.delay_scan))
            ++ map (λ s. (codes "sub", s)) subs)

  post_sends :
      (url body : Text) (st : h.State)
      → c.api_key ≢ []
      → h.check_url (c.endpoint ++ codes "/rest/" ++ url) ≡ none
      → (http_post h c url body st).0
        ≡ (h.send
            (record {
              method = post_method;
              url = c.endpoint ++ codes "/rest/" ++ url;
              api_key = some c.api_key;
              body = body;
            })
            st).0
  unfolding http_post handle_request
  post_sends url body st key good = rw (good, is_empty_ne c.api_key key)

  inform_sends :
      (subs : List Text) (st : h.State)
      → c.api_key ≢ []
      → h.check_url (scan_request subs).url ≡ none
      → (inform_change h c w subs st).0 ≡ (h.send (scan_request subs) st).0
  unfolding inform_change scan
  inform_sends subs st key good =
      post_sends (codes "db/scan?" ++ encode (scan_values h w.folder_id subs w.config.delay_scan))
        [] st key good

  -- the one request of a flush
  the_request :
      (k : Tick) (t : Tracker) (P : List Text → Type 0)
      → Any P (flush w.config k t).1
      → (subs : List Text) × ((flush w.config k t).1 ≡ subs ∷ []) × P subs
  the_request k t P at = elim (flush_once w.config k t) [
    | inl nothing ↦ absurd (subst (Any P) nothing at)
    | inr (subs, only) ↦
        (subs, only, elim (subst (Any P) only at) [ inl p ↦ p | inr none_left ↦ absurd none_left ])
  ]

  through_one :
      (k : Tick) (t : Tracker) (st : h.State) (subs : List Text)
      → (flush w.config (asked h c w st k) t).1 ≡ subs ∷ []
      → (flush_through h c w k t st).1 ≡ (inform_change h c w subs st).0
  unfolding flush_through
  through_one k t st subs only = ap (λ l. inform_all h c w l st) only

  -- A flush asks syncthing for a scan that covers a path: the state behind it is that behind sending a
  -- scan request, and a server reads from its query the folder, the delay and paths that cover the path.
  pub record Sends (path : Text) (st st' : h.State) : Type 0 where
    pub subs : List Text
    pub covered : Any (Covers path) subs
    pub sent : st' ≡ (h.send (scan_request subs) st).0
    pub read : Reads subs (encode (scan_values h w.folder_id subs w.config.delay_scan))

  -- With an API key and an endpoint that make proper requests, every tracked change that is old enough
  -- when the timer fires reaches syncthing: the flush sends one request, a scan whose query asks for the
  -- folder, the path, or a directory above it. The conditions on the paths are those of a flush that loses
  -- no change, and the requested paths must be bytes.
  pub flush_through-Sends :
      (k : Tick) (is_file : Text → Bool) (j : Text) (t : Tracker) (st : h.State)
      → c.api_key ≢ []
      → ((subs : List Text) → h.check_url (scan_request subs).url ≡ none)
      → IsBytes w.folder_id
      → All (All IsBytes) (flush w.config (asked h c w st k) t).1
      → IsDistinct t.in_progress
      → is_due t.curr_interval (asked h c w st k) j (lookup j t.in_progress) ≡ true
      → All
          (FitsStatus dir_vs_files is_file w.config.folder_path k.status)
          (sorted_unique_and_clean_paths (ripe t.curr_interval (asked h c w st k) t.in_progress))
      → as_relative (clean j) ≢ []
      → has_prefix (trim_folder w.config.folder_path (as_relative (clean j))) (slash ∷ []) ≡ false
      → Sends
          (trim_folder w.config.folder_path (as_relative (clean j)))
          st
          (flush_through h c w k t st).1
  flush_through-Sends k is_file j t st key good id_bytes bytes distinct due fits named relative =
      let k' = asked h c w st k in
      let (subs, only, covered) =
        the_request k' t (Any (Covers (trim_folder w.config.folder_path (as_relative (clean j)))))
          (flush-Covers w.config k' is_file j t distinct due fits named relative) in
      record {
        subs = subs;
        covered = covered;
        sent = through_one k t st subs only ∙ inform_sends subs st key (good subs);
        read =
            read_query-scan_values h w.folder_id subs w.config.delay_scan id_bytes
              ((subst (All (All IsBytes)) only bytes).0);
      }
