-- ===== src/Cloudflare/Conservative.antt =====
-- crates/panel/src/cloudflare.rs: which requests the careful operations send.
use multi_proxy.Prelude.{ℕ, ◌≡◌, ◌⊎◌, Member, true, List, [], ◌∷◌, ◌++◌, Text, codes}
use multi_proxy.Prelude.Results.{Result, ok, err}
use multi_proxy.Cloudflare.Records.{
  DnsRecord, Wanted, RecordState, missing, ok_record, conflict, same_record, classify_records,
}
use multi_proxy.Cloudflare.Client.{
  CfApiError, Request, get_at, post_at, Provider, CfClient, records_url, body_of,
  list_records_exact, create_record,
}
use multi_proxy.Cloudflare.Ensure.{EnsureRecord, already_ok, created}

-- The provider that also records what is sent.
abbrev pub logging : {World : Type 0} → Provider World → Provider (World × List Request)
logging p = record {
  send = λ token q (w, log). let (r, w') = p.send token q w in (r, (w', log ++ (q ∷ [])));
  parse_records = p.parse_records;
  parse_record = p.parse_record;
  parse_zone = p.parse_zone;
  parse_value = p.parse_value;
}

module _ (World : Type 0) (p : Provider World) (cf : CfClient) where
  -- The request that reads the records at a name.
  abbrev pub reads : Text → Request
  reads name = get_at (records_url World p cf) ((codes "name", name) ∷ [])

  abbrev pub creates : Wanted → ℕ → Request
  creates want ttl = post_at (records_url World p cf) (body_of World p cf want ttl)

  abbrev pub Ensured : Type 0
  Ensured = Result CfApiError EnsureRecord × (World × List Request)

  -- A record of the set that is the wanted one.
  abbrev FoundIn : Wanted → DnsRecord → List DnsRecord → Type 0
  FoundIn want r rs = Member r rs × (same_record r want ≡ true)

  -- What a creation, asked for in the world `w`, gives: a record that the read after it found, or an error.
  abbrev CreationEnds : Wanted → ℕ → World → Result CfApiError EnsureRecord → List Request → Type 0
  CreationEnds want ttl w (ok (created r)) log =
      let made = create_record World p cf want ttl w in
      ((c : DnsRecord) × (made.0 ≡ ok c))
      × ((rs : List DnsRecord) × ((list_records_exact World p cf want.name made.1).0 ≡ ok rs)
          × FoundIn want r rs)
      × (log ≡ reads want.name ∷ creates want ttl ∷ reads want.name ∷ [])
  CreationEnds want ttl w (ok (already_ok r)) log = ⊥
  CreationEnds want ttl w (err e) log =
      (log ≡ reads want.name ∷ creates want ttl ∷ [])
      ⊎ (log ≡ reads want.name ∷ creates want ttl ∷ reads want.name ∷ [])

  abbrev CreatedFrom : Wanted → ℕ → World → Ensured → Type 0
  CreatedFrom want ttl w1 (r, (w, log)) = CreationEnds want ttl w1 r log

  abbrev ByState : Wanted → ℕ → Ensured → List DnsRecord → World → RecordState → Type 0
  ByState want ttl (r, (w, log)) rs w1 ok_record =
      ((x : DnsRecord) × (r ≡ ok (already_ok x)) × FoundIn want x rs) × (log ≡ reads want.name ∷ [])
  ByState want ttl (r, (w, log)) rs w1 conflict =
      ((e : CfApiError) × (r ≡ err e)) × (log ≡ reads want.name ∷ [])
  ByState want ttl x rs w1 missing = CreatedFrom want ttl w1 x

  -- By the first read, which gives the records at the name, and the world after it.
  abbrev pub Outcome : Wanted → ℕ → Ensured → Result CfApiError (List DnsRecord) × World → Type 0
  Outcome want ttl x (ok rs, w1) = ByState want ttl x rs w1 (classify_records rs want)
  Outcome want ttl (r, (w, log)) (err e, w1) = (r ≡ err e) × (log ≡ reads want.name ∷ [])
