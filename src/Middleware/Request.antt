-- ===== src/Middleware/Request.antt =====
-- internal/middleware/middleware.go and context.go: what is kept of a request, and the keys read from it.
use nw_lb_go.Base.{
  ◌≡◌, refl, if_elim, ℕ, suc, ltb, Bool, true, false, not, ◌&&◌, ◌||◌, if◌then◌else◌, List, [], ◌∷◌,
  Option, none, some, Str, str_eq, codes, length,
}

abbrev pub client_id_header : Str
client_id_header = codes "x-client-id"

abbrev pub request_id_header : Str
request_id_header = codes "x-request-id"

abbrev pub unknown_method : Str
unknown_method = codes "unknown"

-- `RequestInfo`; the last two values and the counter are the atomics.
pub record RequestInfo : Type 0 where
  pub id : Str
  pub method : Str
  pub hash_key : Str
  pub backend : Option Str
  pub set_key : Option Str
  pub attempts : ℕ

-- The methods are called on a pointer that may be nil.
unfoldable pub set_backend : Str → Option RequestInfo → Option RequestInfo
set_backend id none = none
set_backend id (some r) = some (record r { backend = some id })

unfoldable pub add_attempt : Option RequestInfo → Option RequestInfo
add_attempt none = none
add_attempt (some r) = some (record r { attempts = suc r.attempts })

unfoldable pub set_hash_key : Str → Option RequestInfo → Option RequestInfo
set_hash_key k none = none
set_hash_key k (some r) = some (record r { set_key = some k })

or_empty : Option Str → Str
or_empty none = []
or_empty (some s) = s

unfoldable pub backend_of : Option RequestInfo → Str
unfolding or_empty
backend_of none = []
backend_of (some r) = or_empty r.backend

unfoldable pub attempts_of : Option RequestInfo → ℕ
attempts_of none = 0
attempts_of (some r) = r.attempts

unfoldable pub resolved_hash_key : Option RequestInfo → Str
resolved_hash_key none = []
resolved_hash_key (some r) = elim r.set_key [ none ↦ r.hash_key | some k ↦ k ]

-- `net.Addr` as `PeerIP` takes it apart: the text of an IP, which may be nil, or the address of another
-- transport with the host that `net.SplitHostPort` finds in it.
pub data Addr : Type 0 where
  tcp_addr : Option Str → Addr
  udp_addr : Option Str → Addr
  other_addr : Str → Option Str → Addr

-- The context of a stream: what was attached to it, the values of each key of the incoming metadata, all
-- of that metadata as FromIncomingContext returns it, and the peer. The metadata is a Go map: the list
-- has its entries in the order in which a range happens to visit them.
pub record Context : Type 0 where
  pub info : Option RequestInfo
  pub values : Str → List Str
  pub incoming : List (Str × List Str)
  pub peer : Option Addr

unfoldable pub peer_ip : Context → Str
unfolding or_empty
peer_ip ctx = elim ctx.peer [
  | none ↦ []
  | some (tcp_addr ip) ↦ or_empty ip
  | some (udp_addr ip) ↦ or_empty ip
  | some (other_addr s none) ↦ s
  | some (other_addr s (some host)) ↦ host
]

unfoldable pub first_non_empty : List Str → Str
first_non_empty [] = []
first_non_empty (v ∷ vs) = let rest = first_non_empty vs in if str_eq v [] then rest else v

unfoldable pub md_value : Context → Str → Str
unfolding first_non_empty
md_value ctx key = first_non_empty (ctx.values key)

-- The rate-limit key.
unfoldable pub client_key : Context → Str
unfolding md_value peer_ip
client_key ctx =
    let v = md_value ctx client_id_header in
    let ip = peer_ip ctx in
    if not (str_eq v []) then v else if not (str_eq ip []) then ip else unknown_method

-- The affinity key.
unfoldable pub hash_key_of : Context → Str → Str
unfolding md_value peer_ip
hash_key_of ctx hash_header =
    let v = md_value ctx hash_header in
    if not (str_eq hash_header []) && not (str_eq v []) then v else peer_ip ctx

-- `methodOf`; no method stands for a nil `StreamServerInfo`.
unfoldable pub method_of : Option Str → Str
method_of none = unknown_method
method_of (some m) = if str_eq m [] then unknown_method else m

abbrev pub max_request_id_len : ℕ
max_request_id_len = 128

unfoldable pub is_printable : Str → Bool
is_printable [] = true
is_printable (c ∷ s) = let rest = is_printable s in if ltb c 32 || ltb 126 c then false else rest

unfoldable pub valid_request_id : Str → Bool
unfolding is_printable
valid_request_id v =
    if str_eq v [] || ltb max_request_id_len (length v) then false else is_printable v

-- `fresh` is what `newRequestID` mints.
unfoldable pub request_id : Context → Str → Str
unfolding valid_request_id md_value
request_id ctx fresh =
    let v = md_value ctx request_id_header in if valid_request_id v then v else fresh

-- What the interceptor `Context` hands on.
unfoldable pub with_context : Str → Option Str → Str → Context → Context
unfolding request_id method_of hash_key_of
with_context hash_header method fresh ctx = record ctx {
  info = some (record {
    id = request_id ctx fresh;
    method = method_of method;
    hash_key = hash_key_of ctx hash_header;
    backend = none;
    set_key = none;
    attempts = 0;
  });
}

-- `Proxy.hashKey`.
unfoldable pub route_key : Str → Context → Str
unfolding resolved_hash_key hash_key_of
route_key hash_header ctx =
    let k = resolved_hash_key ctx.info in
    if not (str_eq k []) then k else hash_key_of ctx hash_header

-- The key that the proxy routes on is the one that the logs report: for a context that the interceptor
-- has filled, `Proxy.hashKey` and `ResolvedHashKey` agree, and give the key of the caller's own context.
pub route_key-with_context :
    (ctx : Context) (hash_header fresh : Str) (method : Option Str)
    → let filled = with_context hash_header method fresh ctx in
      (route_key hash_header filled ≡ resolved_hash_key filled.info)
      × (resolved_hash_key filled.info ≡ hash_key_of ctx hash_header)
unfolding route_key with_context
route_key-with_context ctx hash_header fresh method = (
  if_elim (λ k. k ≡ hash_key_of ctx hash_header) (not (str_eq (hash_key_of ctx hash_header) []))
      (λ a. refl) (λ a. refl),
  refl,
)

-- An id that is echoed to the caller and written to the logs is short and printable, whatever the caller
-- sends, given that the minted ones are.
pub request_id-safe :
    (ctx : Context) (fresh : Str)
    → valid_request_id fresh ≡ true
    → valid_request_id (request_id ctx fresh) ≡ true
unfolding request_id
request_id-safe ctx fresh h =
    if_elim (λ v. valid_request_id v ≡ true) (valid_request_id (md_value ctx request_id_header))
      (λ a. a) (λ a. h)
