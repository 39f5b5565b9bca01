-- ===== src/Integrity/Careful.antt =====
-- crates/panel/src/dns_integrity.rs: what a check, or a repair, sends to the provider.
use multi_proxy.Prelude.{
  ℕ, ◌≡◌, refl, ◌⊎◌, inl, inr, Bool, true, false, List, [], ◌∷◌, Option, none, some, Text, All, Any,
  All-map, All-append, find,
}
use multi_proxy.Prelude.Results.{Result, ok, err, Action, and_then, pure, ◌>>=◌}
use multi_proxy.Cloudflare.Records.{
  DnsRecord, Wanted, RecordState, missing, ok_record, conflict, same_record, classify_records,
}
use multi_proxy.Cloudflare.Client.{
  CfApiError, CfResponse, Request, get_at, post_at, put_at, delete_at, Response, Provider, CfClient,
  json, from_response, list_records_exact, create_record,
}
use multi_proxy.Cloudflare.Ensure.{
  EnsureRecord, already_ok, created, found, verified, create_and_verify, ensure_from,
  ensure_missing_record, classify_record,
}
use multi_proxy.Cloudflare.Conservative.{logging, reads, creates}
use multi_proxy.Integrity.Report.{CheckItem}
use multi_proxy.Integrity.Desired.{DesiredState}
use multi_proxy.Integrity.Records.{
  with_provider_deadline, run_if, check_record, check_records, desired_records,
  repair_cloudflare_records,
}

module _ (World : Type 0) (p : Provider World) (cf : CfClient) (P : Request → Type 0) where
  abbrev Logged : Type 0
  Logged = World × List Request

  -- What has been sent is all of the kind.
  abbrev Sent : {A : Type 0} → A × Logged → Type 0
  Sent x = All P x.1.1

  abbrev Sends : {A : Type 0} → Action Logged CfApiError A → Type 0
  Sends m = (s : Logged) → All P s.1 → Sent (m s)

  and_then-Sent :
      {A B : Type 0} (x : Result CfApiError A × Logged) (f : A → Action Logged CfApiError B)
      → Sent x
      → ((a : A) → Sends (f a))
      → Sent (and_then x f)
  and_then-Sent (ok a, s) f h k = k a s h
  and_then-Sent (err e, s) f h k = h

  response-Sent :
      {A : Type 0} (parse : Text → Result Text (CfResponse A)) (x : Result Text Response × Logged)
      → Sent x
      → Sent (from_response {World = Logged} parse x)
  response-Sent parse (err e, s) h = h
  response-Sent parse (ok res, s) h = h

  json-Sends :
      {A : Type 0} (parse : Text → Result Text (CfResponse A)) (q : Request)
      → P q
      → Sends (json Logged (logging p) cf parse q)
  unfolding json
  json-Sends parse q h (w, log) a = response-Sent parse _ (All-append P log (q ∷ []) a (h, tt))

  pure-Sends : {A : Type 0} (a : A) → Sends (pure a)
  pure-Sends a s h = h

  found-Sends : (o : Option DnsRecord) → Sends (found Logged (logging p) cf o)
  found-Sends none s h = h
  found-Sends (some r) s h = h

  list-Sends :
      (name : Text)
      → P (reads World p cf name)
      → Sends (list_records_exact Logged (logging p) cf name)
  unfolding list_records_exact
  list-Sends name h = json-Sends p.parse_records (reads World p cf name) h

  classify_record-Sends :
      (want : Wanted)
      → P (reads World p cf want.name)
      → Sends (classify_record Logged (logging p) cf want)
  unfolding classify_record
  classify_record-Sends want h s a =
      and_then-Sent (list_records_exact Logged (logging p) cf want.name s)
        (λ rs. pure (classify_records rs want)) (list-Sends want.name h s a)
        (λ rs. pure-Sends (classify_records rs want))

  verified-Sends :
      (state : RecordState) (after : List DnsRecord) (want : Wanted)
      → Sends (verified Logged (logging p) cf state after want)
  verified-Sends ok_record after want s a =
      let o = find (λ r. same_record r want) after in
      and_then-Sent (found Logged (logging p) cf o s) (λ r. pure (created r)) (found-Sends o s a)
        λ r s' a'. a'
  verified-Sends missing after want s a = a
  verified-Sends conflict after want s a = a

  abbrev reread : Wanted → Action Logged CfApiError EnsureRecord
  reread want = list_records_exact Logged (logging p) cf want.name >>= λ after.
      verified Logged (logging p) cf (classify_records after want) after want

  reread-Sends : (want : Wanted) → P (reads World p cf want.name) → Sends (reread want)
  reread-Sends want g s a =
      and_then-Sent (list_records_exact Logged (logging p) cf want.name s)
        (λ after. verified Logged (logging p) cf (classify_records after want) after want)
        (list-Sends want.name g s a)
        (λ after. verified-Sends (classify_records after want) after want)

  create-Sends :
      (want : Wanted) (ttl : ℕ)
      → P (reads World p cf want.name)
      → P (creates World p cf want ttl)
      → Sends (create_and_verify Logged (logging p) cf want ttl)
  unfolding create_record
  create-Sends want ttl g c s a =
      and_then-Sent (create_record Logged (logging p) cf want ttl s) (λ _. reread want)
        (json-Sends p.parse_record (creates World p cf want ttl) c s a) (λ _. reread-Sends want g)

  ensure_from-Sends :
      (state : RecordState) (before : List DnsRecord) (want : Wanted) (ttl : ℕ)
      → P (reads World p cf want.name)
      → P (creates World p cf want ttl)
      → Sends (ensure_from Logged (logging p) cf state before want ttl)
  ensure_from-Sends ok_record before want ttl g c s a =
      let o = find (λ r. same_record r want) before in
      and_then-Sent (found Logged (logging p) cf o s) (λ r. pure (already_ok r)) (found-Sends o s a)
        λ r s' a'. a'
  ensure_from-Sends conflict before want ttl g c s a = a
  ensure_from-Sends missing before want ttl g c s a = create-Sends want ttl g c s a

  ensure-Sends :
      (want : Wanted) (ttl : ℕ)
      → P (reads World p cf want.name)
      → P (creates World p cf want ttl)
      → Sends (ensure_missing_record Logged (logging p) cf want ttl)
  unfolding ensure_missing_record
  ensure-Sends want ttl g c s a =
      and_then-Sent (list_records_exact Logged (logging p) cf want.name s)
        (λ before. ensure_from Logged (logging p) cf (classify_records before want) before want ttl)
        (list-Sends want.name g s a)
        (λ before. ensure_from-Sends (classify_records before want) before want ttl g c)

  module _ (deadline : Logged → Bool × Bool) where
    run_if-Sent :
        {A : Type 0} (t : Bool × Bool) (m : Action Logged CfApiError A) (s : Logged)
        → Sends m
        → All P s.1
        → Sent (run_if Logged (logging p) cf deadline t m s)
    run_if-Sent (false, elapses) m s h a = a
    run_if-Sent (true, elapses) m s h a = h s a

    check_record-Sent :
        (repair : Bool) (want : Wanted) (s : Logged)
        → P (reads World p cf want.name)
        → (repair ≡ true → P (creates World p cf want 300))
        → All P s.1
        → Sent (check_record Logged (logging p) cf deadline repair want s)
    unfolding check_record with_provider_deadline
    check_record-Sent true want s g c a =
        run_if-Sent (deadline s) (ensure_missing_record Logged (logging p) cf want 300) s
          (ensure-Sends want 300 g (c refl)) a
    check_record-Sent false want s g c a =
        run_if-Sent (deadline s) (classify_record Logged (logging p) cf want) s
          (classify_record-Sends want g) a

    check_records-Sent :
        (repair : Bool) (wants : List (Text × Wanted)) (out : List CheckItem) (s : Logged)
        → All
            (λ (t : Text × Wanted).
              P (reads World p cf t.1.name) × (repair ≡ true → P (creates World p cf t.1 300)))
            wants
        → All P s.1
        → Sent (check_records Logged (logging p) cf deadline repair wants out s)
    unfolding check_records
    check_records-Sent repair [] out s g a = a
    check_records-Sent repair ((id, want) ∷ wants) out s g a =
        check_records-Sent repair wants _ _ g.1 (check_record-Sent repair want s g.0.0 g.0.1 a)

abbrev pub IsRead : Request → Type 0
IsRead (get_at url query) = Unit
IsRead (post_at url body) = ⊥
IsRead (put_at url body) = ⊥
IsRead (delete_at url) = ⊥

module _ (World : Type 0) (p : Provider World) (cf : CfClient)
    (deadline : World × List Request → Bool × Bool) where
  -- A request that reads, or, on a repair, one that creates a desired record.
  abbrev pub Allowed : DesiredState → Bool → Request → Type 0
  Allowed desired repair q =
      IsRead q
      ⊎ ((repair ≡ true)
          × Any (λ (t : Text × Wanted). q ≡ creates World p cf t.1 300) (desired_records desired))

  Any-self :
      {A : Type 0} (Q : A → A → Type 0)
      → ((x : A) → Q x x)
      → (xs : List A) → All (λ x. Any (Q x) xs) xs
  Any-self Q r [] = tt
  Any-self Q r (x ∷ xs) = (inl (r x), All-map (λ y a. inr a) xs (Any-self Q r xs))

  -- A check sends nothing but reads, and a repair nothing but reads and creations of desired records: no record
  -- is ever updated or deleted, whatever the provider answers and whenever the deadline passes.
  pub repair_cloudflare_records-Allowed :
      (desired : DesiredState) (repair : Bool) (out : List CheckItem) (w : World)
      → All
          (Allowed desired repair)
          (repair_cloudflare_records
            (World × List Request)
            (logging p)
            cf
            deadline
            desired
            repair
            out
            (w, [])).1.1
  unfolding repair_cloudflare_records
  repair_cloudflare_records-Allowed desired repair out w =
      check_records-Sent World p cf (Allowed desired repair) deadline repair
        (desired_records desired) out (w, [])
        (All-map (λ t a. (inl tt, λ e. inr (e, a))) (desired_records desired)
          (Any-self
            (λ (x y : Text × Wanted). creates World p cf x.1 300 ≡ creates World p cf y.1 300)
            (λ x. refl) (desired_records desired)))
        tt
