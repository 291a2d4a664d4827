-- ===== src/Routing/Tests.antt =====
-- The routing adapter at three upstreams: one that is down, and two that list a tool of one name.
use openagent_control.Prelude.{
  ℕ, String, ◌≡◌, refl, true, false, ◌⊎◌, none, some, List, [], ◌∷◌, arith,
}
use openagent_control.Dict
use openagent_control.Json.{Json, null, str, arr, obj, nil, cons, end, field, get}
use openagent_control.Exec.{Result, ok, err, upstream, Exec, ◌>>=◌}
use openagent_control.Models.{ToolCallRequest}
use openagent_control.Routing.Merge.{
  Merged, no_get, tools_in, tools_under, tools_of, add_named, add_tools, add_answer, merge, nothing,
}
use openagent_control.Routing.Upstream.{
  Routing, Routed, fan_out, install, all_failed, refresh, route_for,
}
use openagent_control.Routing.Answers.{all_dicts}
use openagent_control.Routing.FirstWins.{first_advertiser, merge-first_advertiser}
use openagent_control.Routing.Table.{IsTable, merge-IsTable}
use openagent_control.Routing.Refresh.{refresh_partial, refresh_failed, route_for_stale}

unfoldable routing_run : Unit {0}
unfolding fan_out install all_failed refresh route_for tools_in tools_under tools_of add_named
    add_tools add_answer merge Dict.get Dict.insert get ◌>>=◌
routing_run = tt

abbrev tool : String → Json
tool name = obj (field "name" (str name) end)

abbrev listing_of : String → Json
listing_of name = obj (
    field "result" (obj (field "tools" (arr (cons (tool name) (cons (tool "search") nil))) end))
      end)

-- The state counts the requests.
abbrev answering : String → ToolCallRequest → String → Exec ℕ Json
answering name request credential n = (ok (listing_of name), n)

abbrev routing : Routing ℕ
routing = record {
  upstreams =
      ("crm", λ request credential n. (err (upstream "down"), n))
      ∷ ("finance", answering "pay")
      ∷ ("tools", answering "grep")
      ∷ [];
  cache_ttl = 300;
  monotonic = λ n. n;
}

abbrev request : ToolCallRequest
request = record {
  method = "tools/call";
  tool_name = some "search";
  arguments = end;
  agent = record { spiffe_id = "spiffe://corp/bot"; human_sponsor = none; client_id = none };
  registration = none;
  subject = none;
  request_id = none;
}

abbrev cold : Routed ℕ
cold = record { env = 7; routes = []; expire_at = 0 }

abbrev warm : Routed ℕ
warm = record { env = 7; routes = ("search", "tools") ∷ []; expire_at = 9 }

abbrev answers : List (String × Result Json)
answers =
    ("crm", err (upstream "down"))
    ∷ ("finance", ok (listing_of "pay"))
    ∷ ("tools", ok (listing_of "grep"))
    ∷ []

search_is_first : first_advertiser "search" answers ≡ some "finance"
unfolding routing_run
search_is_first = refl

route_for_stale_example : (route_for routing "search" request "token" cold).0 ≡ ok (some "finance")
unfolding routing_run
route_for_stale_example = route_for_stale routing "search" request "token" cold refl refl

merge-first_advertiser_example :
    (m : Merged) × (merge answers nothing ≡ ok m)
    × (Dict.get "search" m.routes ≡ first_advertiser "search" answers)
merge-first_advertiser_example = merge-first_advertiser "search" answers refl

merge-IsTable_example : (m : Merged) × (merge answers nothing ≡ ok m) × IsTable m
merge-IsTable_example = merge-IsTable answers refl

refresh_partial_example :
    ((all_dicts answers ≡ true)
      × ((m : Merged) × (merge answers nothing ≡ ok m)
          × (refresh routing request "token" cold
              ≡ (ok m.merged, record { env = 7; routes = m.routes; expire_at = 307 }))))
    ⊎ ((all_dicts answers ≡ false) × (refresh routing request "token" cold ≡ (err no_get, cold)))
unfolding routing_run
refresh_partial_example = refresh_partial routing request "token" cold refl

-- One that answers with null.
abbrev odd : Routing ℕ
odd = record routing {
  upstreams = ("crm", λ request credential n. (ok null, n)) ∷ ("finance", answering "pay") ∷ [];
}

odd_is_broken : refresh odd request "token" cold ≡ (err no_get, cold)
unfolding routing_run
odd_is_broken = refl

-- All of them down.
abbrev unreachable : Routing ℕ
unreachable = record routing {
  upstreams = ("crm", λ request credential n. (err (upstream "down"), n)) ∷ [];
}

refresh_failed_example :
    (message : String) × (refresh unreachable request "token" cold ≡ (err (upstream message), cold))
unfolding routing_run
refresh_failed_example = refresh_failed unreachable request "token" cold (omega arith) refl
