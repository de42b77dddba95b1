-- ===== src/Proxy/Forward.antt =====
-- internal/proxy/proxy.go: `forwardMD`, and `handle` up to its call of `run`.
use nw_lb_go.Base.{
  ℕ, Bool, false, not, ◌||◌, ◌==◌, if◌then◌else◌, List, [], ◌∷◌, ◌++◌, Str, str_eq, codes,
}
use nw_lb_go.Config.Text.{to_lower}
use nw_lb_go.Middleware.Guard.{internal}
use nw_lb_go.Middleware.Request.{Context, peer_ip}
use nw_lb_go.Proxy.Types.{Err, status_error, no_backends, FirstMessage}
use nw_lb_go.Proxy.Exchange.{Call}
use nw_lb_go.Proxy.System.{new_call}

abbrev pub forwarded_for_header : Str
forwarded_for_header = codes "x-forwarded-for"

abbrev pub hop_by_hop : List Str
hop_by_hop =
    codes "connection"
    ∷ codes "te"
    ∷ codes "trailer"
    ∷ codes "transfer-encoding"
    ∷ codes "upgrade"
    ∷ codes "keep-alive"
    ∷ codes "proxy-authorization"
    ∷ []

unfoldable pub among : Str → List Str → Bool
among k [] = false
among k (x ∷ xs) = str_eq k x || among k xs

-- A pseudo-header starts with a colon.
unfoldable pub is_pseudo : Str → Bool
is_pseudo [] = false
is_pseudo (c ∷ s) = c == 58

abbrev pub Md : Type 0
Md = List (Str × List Str)

-- `md[k] = append(md[k], vals...)`.
unfoldable pub md_append : Str → List Str → Md → Md
md_append k vals [] = (k, vals) ∷ []
md_append k vals ((j, old) ∷ md) =
    let rest = md_append k vals md in if str_eq j k then (j, old ++ vals) ∷ md else (j, old) ∷ rest

unfoldable pub md_get : Str → Md → List Str
md_get k [] = []
md_get k ((j, vals) ∷ md) = let rest = md_get k md in if str_eq j k then vals else rest

-- What belongs to the inbound hop only.
unfoldable pub dropped : Str → Bool
unfolding is_pseudo among
dropped lk = is_pseudo lk || among lk hop_by_hop

-- One round of the loop, for a key in lower case.
unfoldable pub copied : Str → List Str → Md → Md
unfolding dropped md_append
copied lk vals out = if dropped lk then out else md_append lk vals out

unfoldable pub copy_md : Md → Md → Md
unfolding copied
copy_md [] out = out
copy_md ((k, vals) ∷ rest) out = copy_md rest (copied (to_lower k) vals out)

unfoldable pub forward_md : Context → Md
unfolding copy_md
forward_md ctx =
    let out = copy_md ctx.incoming [] in
    let ip = peer_ip ctx in
    if str_eq ip [] then out else md_append forwarded_for_header (ip ∷ []) out

-- How `handle` gets the first message: or the error that the stream gives instead.
pub data FirstRecv : Type 0 where
  received_first : FirstMessage → FirstRecv
  recv_failed : Err → FirstRecv

-- What `handle` does: it ends at once, or it goes on to `run` with this many candidates.
pub data Start : Type 0 where
  refused : Err → Start
  serves : ℕ → Call → Start

serve : ℕ → FirstRecv → Start
serve n (recv_failed e) = refused e
serve n (received_first f) = serves n (new_call f)

-- `candidates` is how many backends `Pick` returned.
unfoldable pub handle : (has_method : Bool) → (candidates : ℕ) → FirstRecv → Start
unfolding serve new_call
handle has_method candidates first =
    if not has_method
    then refused (status_error internal 1)
    else if candidates == 0
    then refused no_backends
    else serve candidates first
