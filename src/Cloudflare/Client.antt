-- ===== src/Cloudflare/Client.antt =====
-- crates/panel/src/cloudflare.rs: the requests of the client, with its handling of answers.
use multi_proxy.Prelude.{
  ℕ, Bool, List, [], ◌∷◌, ◌++◌, Option, none, some, Text, codes, decimal, if◌then◌else◌, ltb,
  length, take, map, trim_end_matches,
}
use multi_proxy.Prelude.Results.{Result, ok, err, Action, pure, ◌>>◌}
use multi_proxy.Cloudflare.Records.{DnsRecord, Wanted}

pub record CfError : Type 0 where
  pub code : ℕ
  pub message : Text

-- `CfResponse`, of an answer's result.
pub record CfResponse (A : Type 0) : Type 0 where
  pub success : Bool
  pub errors : List CfError
  pub result : Option A

pub data CfApiError : Type 0 where
  http : Text → CfApiError
  api : Text → CfApiError
  no_result : CfApiError

unfoldable pub show_error : CfApiError → Text
show_error (http e) = codes "CF HTTP error: " ++ e
show_error (api m) = codes "CF API error: " ++ m
show_error no_result = codes "CF API returned no result"

abbrev show_cf_error : CfError → Text
show_cf_error e = codes "CF error " ++ (decimal e.code ++ (codes ": " ++ e.message))

-- `join("; ")`.
abbrev join_semicolons : List Text → Text
join_semicolons [] = []
join_semicolons (t ∷ []) = t
join_semicolons (t ∷ u ∷ ts) = t ++ (codes "; " ++ join_semicolons (u ∷ ts))

-- The body of a creation or of an update, and the requests that the client makes.
pub record Body : Type 0 where
  pub record_type : Text
  pub name : Text
  pub content : Text
  pub proxied : Bool
  pub ttl : ℕ

pub data Request : Type 0 where
  get_at : Text → List (Text × Text) → Request
  post_at : Text → Body → Request
  put_at : Text → Body → Request
  delete_at : Text → Request

-- A status with whether it is a success, and the body.
pub record Response : Type 0 where
  pub is_success : Bool
  pub status : Text
  pub body : Text

-- The bearer token is an argument of the sending. A parser gives the answer or its error.
pub record Provider (World : Type 0) : Type 0 where
  pub send : Text → Request → Action World Text Response
  pub parse_records : Text → Result Text (CfResponse (List DnsRecord))
  pub parse_record : Text → Result Text (CfResponse DnsRecord)
  pub parse_zone : Text → Result Text (CfResponse Text)
  pub parse_value : Text → Result Text (CfResponse Unit)

pub record CfClient : Type 0 where
  pub token : Text
  pub zone_id : Text
  pub base_url : Text

abbrev pub cf_base : Text
cf_base = codes "https://api.cloudflare.com/client/v4"

unfoldable pub with_base_url : Text → Text → Text → CfClient
with_base_url token zone_id base_url = record {
  token = token;
  zone_id = zone_id;
  base_url = trim_end_matches b'/' base_url;
}

unfoldable pub new_client : Text → Text → CfClient
unfolding with_base_url trim_end_matches
new_client token zone_id = with_base_url token zone_id cf_base

unfoldable pub truncate_body : Text → Text
truncate_body body = if ltb 300 (length body) then take 300 body ++ codes "..." else take 300 body

abbrev detail_or : Text → Text → Text
detail_or body [] = codes ": " ++ truncate_body body
detail_or body (c ∷ detail) = codes ": " ++ (c ∷ detail)

unfoldable pub check_errors : {A : Type 0} → CfResponse A → Result CfApiError Unit
check_errors r =
    if r.success then ok tt else err (api (join_semicolons (map show_cf_error r.errors)))

abbrev or_no_result : {A : Type 0} → Option A → Result CfApiError A
or_no_result none = err no_result
or_no_result (some a) = ok a

abbrev if_checked :
    {A : Type 0} → Result CfApiError Unit → Result CfApiError A → Result CfApiError A
if_checked (err e) rest = err e
if_checked (ok u) rest = rest

-- What `json` makes of an answer.
abbrev answered : {A : Type 0} → Response → Result Text (CfResponse A) → Result CfApiError A
answered res (err e) = err (
    api (
      codes "CF HTTP "
      ++ (res.status
          ++ (codes " returned malformed JSON: "
              ++ (e ++ (codes " (body: " ++ (truncate_body res.body ++ codes ")")))))))
answered res (ok parsed) =
    if res.is_success
    then if_checked (check_errors parsed) (or_no_result parsed.result)
    else err (
        api (
          codes "CF HTTP "
          ++ (res.status
              ++ detail_or res.body (join_semicolons (map show_cf_error parsed.errors)))))

abbrev pub from_response :
    {A World : Type 0}
    → (Text → Result Text (CfResponse A))
    → Result Text Response × World
    → Result CfApiError A × World
from_response parse (err e, w) = (err (http e), w)
from_response parse (ok res, w) = (answered res (parse res.body), w)

module _ (World : Type 0) (p : Provider World) (cf : CfClient) where
  unfoldable pub json :
      {A : Type 0} → (Text → Result Text (CfResponse A)) → Request → Action World CfApiError A
  unfolding truncate_body check_errors
  json parse request w = from_response parse (p.send cf.token request w)

  abbrev pub zone_url : Text
  zone_url = cf.base_url ++ (codes "/zones/" ++ cf.zone_id)

  abbrev pub records_url : Text
  records_url = zone_url ++ codes "/dns_records"

  unfoldable pub list_records : Text → Text → Action World CfApiError (List DnsRecord)
  unfolding json
  list_records record_type name =
      json p.parse_records
        (get_at records_url ((codes "type", record_type) ∷ (codes "name", name) ∷ []))

  unfoldable pub list_records_exact : Text → Action World CfApiError (List DnsRecord)
  unfolding json
  list_records_exact name = json p.parse_records (get_at records_url ((codes "name", name) ∷ []))

  unfoldable pub zone_name : Action World CfApiError Text
  unfolding json
  zone_name = json p.parse_zone (get_at zone_url [])

  abbrev pub body_of : Wanted → ℕ → Body
  body_of want ttl = record {
    record_type = want.record_type;
    name = want.name;
    content = want.content;
    proxied = want.proxied;
    ttl = ttl;
  }

  unfoldable pub create_record : Wanted → ℕ → Action World CfApiError DnsRecord
  unfolding json
  create_record want ttl = json p.parse_record (post_at records_url (body_of want ttl))

  abbrev pub record_url : Text → Text
  record_url record_id = records_url ++ (codes "/" ++ record_id)

  unfoldable pub update_record : Text → Wanted → ℕ → Action World CfApiError DnsRecord
  unfolding json
  update_record record_id want ttl =
      json p.parse_record (put_at (record_url record_id) (body_of want ttl))

  unfoldable pub delete_record : Text → Action World CfApiError Unit
  unfolding json
  delete_record record_id = do json p.parse_value (delete_at (record_url record_id)); pure tt
