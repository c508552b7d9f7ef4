-- ===== src/Syncthing/Requests.antt =====
-- What is sent to syncthing, and what is made of the answer.
use mathlib.Core.Path.{subst}
use correlation.Base.{
  is_empty_ne, ℕ, Text, codes, List, [], ◌∷◌, ◌++◌, map, Bool, true, false, ◌==◌, ltb,
  if◌then◌else◌, ◌/◌, some, Result, ok, err, ◌>>=◌, ◌≡◌, ◌≢◌, refl, sym, ap, ◌∙◌, arith, All,
  All-append, lookup, insert, keys, sort_strings, insert_sorted, text_eq, text_le, append_assoc,
  append-nil, Bool-cases, inl, inr,
}
use correlation.Strconv.{itoa_nat}
use correlation.Strconv.RoundTrip.{IsDigit, itoa_nat-IsDigit}
use correlation.Query.{Values, values_set, values_add, pairs, encode, spell}
use correlation.Query.RoundTrip.{IsBytes, IsBytePair, read_query, read_query-spell}
use correlation.Syncthing.{
  Http, Client, Request, Response, check_response, handle_request, unexpected, add_subs,
  scan_values,
}

module _ (h : Http) where
  abbrev with_folder : Text → List Text → Values
  with_folder id l = (codes "folder", id ∷ []) ∷ (codes "sub", l) ∷ []

  add_subs_more :
      (id : Text) (l subs : List Text)
      → add_subs h subs (with_folder id l) ≡ with_folder id (l ++ subs)
  unfolding add_subs values_add lookup insert text_eq
  add_subs_more id l [] = rw (append-nil l)
  add_subs_more id l (s ∷ subs) =
      add_subs_more id (l ++ s ∷ []) subs ∙ ap (with_folder id) (append_assoc l (s ∷ []) subs)

  add_subs_first :
      (id s : Text) (subs : List Text)
      → add_subs h (s ∷ subs) (values_set (codes "folder") id []) ≡ with_folder id (s ∷ subs)
  unfolding add_subs values_add values_set lookup insert text_eq
  add_subs_first id s subs = add_subs_more id (s ∷ []) subs

  abbrev finished : Bool → Text → Values → Values
  finished b n v = if b then values_set (codes "next") n v else v

  abbrev pub next_pairs : Bool → Text → List (Text × Text)
  next_pairs b n = if b then (codes "next", n) ∷ [] else []

  abbrev all_pairs : Values → List (Text × Text)
  all_pairs v = pairs v (sort_strings (keys v))

  pairs_with :
      (b : Bool) (n id : Text) (l : List Text)
      → all_pairs (finished b n (with_folder id l))
        ≡ (codes "folder", id) ∷ (next_pairs b n ++ map (λ s. (codes "sub", s)) l)
  unfolding pairs values_set lookup insert text_eq sort_strings insert_sorted text_le
  pairs_with true n id l =
      ap (λ x. (codes "folder", id) ∷ (codes "next", n) ∷ x)
        (append-nil (map (λ s. (codes "sub", s)) l))
  pairs_with false n id l =
      ap (λ x. (codes "folder", id) ∷ x) (append-nil (map (λ s. (codes "sub", s)) l))

  pairs_without :
      (b : Bool) (n id : Text)
      → all_pairs (finished b n (values_set (codes "folder") id []))
        ≡ (codes "folder", id) ∷ next_pairs b n
  unfolding pairs values_set lookup insert text_eq sort_strings insert_sorted text_le
  pairs_without true n id = refl
  pairs_without false n id = refl

  scan_pairs :
      (b : Bool) (n id : Text) (subs : List Text)
      → all_pairs (finished b n (add_subs h subs (values_set (codes "folder") id [])))
        ≡ (codes "folder", id) ∷ (next_pairs b n ++ map (λ s. (codes "sub", s)) subs)
  unfolding add_subs
  scan_pairs b n id [] =
      pairs_without b n id ∙ ap (λ x. (codes "folder", id) ∷ x) (sym (append-nil (next_pairs b n)))
  scan_pairs b n id (s ∷ subs) =
      ap (λ v. all_pairs (finished b n v)) (add_subs_first id s subs) ∙ pairs_with b n id (s ∷ subs)

  subs-IsBytePair :
      (subs : List Text) → All IsBytes subs → All IsBytePair (map (λ s. (codes "sub", s)) subs)
  subs-IsBytePair [] hs = tt
  subs-IsBytePair (s ∷ subs) (hs, rest) = ((ground arith, hs), subs-IsBytePair subs rest)

  digits-IsBytes : (s : Text) → All IsDigit s → IsBytes s
  digits-IsBytes [] hd = tt
  digits-IsBytes (c ∷ s) (d, hd) = (ground (arith, d), digits-IsBytes s hd)

  next-IsBytePair : (b : Bool) (n : Text) → IsBytes n → All IsBytePair (next_pairs b n)
  next-IsBytePair true n hn = ((ground arith, hn), tt)
  next-IsBytePair false n hn = tt

  abbrev pub seconds : ℕ → ℕ
  seconds delay_scan = delay_scan / 1_000_000_000

  -- What a server reads from the query of a scan request, for texts of bytes: the folder, the delay in
  -- whole seconds if it is not 0, and each path, in order.
  pub read_query-scan_values :
      (id : Text) (subs : List Text) (delay_scan : ℕ)
      → IsBytes id
      → All IsBytes subs
      → read_query (encode (scan_values h id subs delay_scan))
        ≡ (codes "folder", id)
          ∷ (next_pairs (ltb 0 (seconds delay_scan)) (itoa_nat (seconds delay_scan))
              ++ map (λ s. (codes "sub", s)) subs)
  unfolding encode scan_values
  read_query-scan_values id subs delay_scan hid hs =
      let n = itoa_nat (seconds delay_scan) in
      let b = ltb 0 (seconds delay_scan) in
      ap (λ ps. read_query (spell ps)) (scan_pairs b n id subs)
      ∙ read_query-spell (codes "folder", id) (next_pairs b n ++ map (λ s. (codes "sub", s)) subs)
          (
            (ground arith, hid),
            All-append IsBytePair (next_pairs b n) (map (λ s. (codes "sub", s)) subs)
                (next-IsBytePair b n (digits-IsBytes n (itoa_nat-IsDigit (seconds delay_scan))))
                (subs-IsBytePair subs hs),
          )

  err-ne-ok : (e : Text) (r : Response) → err e ≢ ok r
  err-ne-ok e r q = cc

  unexpected_fails : (status raw : Text) (r : Response) → unexpected h status raw ≢ ok r
  unexpected_fails status raw r q = ground arith

  body_fails :
      (status : Text) (b : Result Text) (r : Response)
      → (b >>= λ raw. unexpected h status raw) ≢ ok r
  body_fails status (ok raw) r q = unexpected_fails status raw r q
  body_fails status (err e) r q = err-ne-ok e r q

  check_response_ok : (r s : Response) → check_response h r ≡ ok s → (r ≡ s) × (r.status_code ≡ 200)
  unfolding check_response
  check_response_ok r s q = elim (Bool-cases (r.status_code == 200)) [
    | inl e ↦ ground arith
    | inr e ↦ absurd (body_fails r.status r.body s (ground arith))
  ]

  abbrev checked : h.State × Result Response → h.State × Result Response
  checked p = (p.0, p.1 >>= check_response h)

  answered :
      (p : h.State × Result Response) (st : h.State) (s : Response)
      → checked p ≡ (st, ok s)
      → (p ≡ (st, ok s)) × (s.status_code ≡ 200)
  answered (st', err e) st s q =
      absurd (err-ne-ok e s (ap (λ (x : h.State × Result Response). x.1) q))
  answered (st', ok r) st s q =
      let (same, good) = check_response_ok r s (ap (λ (x : h.State × Result Response). x.1) q) in
      let here : st' ≡ st = ap (λ (x : h.State × Result Response). x.0) q in
      (rw (here, same), subst (λ (x : Response). x.status_code ≡ 200) same good)

  -- With an API key, a request succeeds only if it was sent with the key and answered with status 200, and
  -- then the result is that answer.
  pub handle_request_ok :
      (c : Client) (r : Request) (st st' : h.State) (s : Response)
      → c.api_key ≢ []
      → handle_request h c r st ≡ (st', ok s)
      → (h.send (record r { api_key = some c.api_key }) st ≡ (st', ok s)) × (s.status_code ≡ 200)
  unfolding handle_request
  handle_request_ok c r st st' s key q =
      answered (h.send (record r { api_key = some c.api_key }) st) st' s
        (rw (is_empty_ne c.api_key key) at q)
