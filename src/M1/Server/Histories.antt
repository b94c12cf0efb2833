-- ===== src/M1/Server/Histories.antt =====
-- Sequences of requests to the server of apps/m1_rtl_to_gds/src/openroad_app_m1/server.py, one after
-- the other. A request brings the client of its caller's token, and what the run of the handler
-- draws: a fresh `uuid4` or the current time.
use agentic_rtlto_gds_design.Prelude.{String, List, [], ◌∷◌}
use agentic_rtlto_gds_design.Prelude.Action.{lift_state}
use agentic_rtlto_gds_design.M1.History.{Extends, Extends-refl, IsKeyed}
use agentic_rtlto_gds_design.M1.History.Calls.{perform-Advances}
use agentic_rtlto_gds_design.M1.History.Steps.{Advances}
use agentic_rtlto_gds_design.M1.State.{Service}
use agentic_rtlto_gds_design.M1.Server.{App, WebClient, Request, Reply, request_body}
use agentic_rtlto_gds_design.M1.Server.Ends.{IsUnused}
use agentic_rtlto_gds_design.M1.Server.Ends.Get.{get_ends}
use agentic_rtlto_gds_design.M1.Server.Ends.Post.{post_ends}
use agentic_rtlto_gds_design.M1.Server.Get.{do_get}
use agentic_rtlto_gds_design.M1.Server.Post.{do_post}
use agentic_rtlto_gds_design.M1.Server.Routes.{post_route, get_route}

pub data Exchange : Type 0 where
  get_request : String → String → WebClient → Exchange
  post_request : String → String → Request → WebClient → Exchange

-- The reply to a request, and the service after it.
unfoldable pub serve : App → Exchange → Service → Reply × Service
serve app (get_request now path client) s = do_get app now path client s
serve app (post_request uuid path request client) s = do_post app uuid path request client s

unfoldable pub serve_all : App → List Exchange → Service → Service
serve_all app [] s = s
serve_all app (x ∷ rest) s = serve_all app rest (serve app x s).1

-- A `uuid4` names nothing yet.
abbrev pub DrawsUnused : Exchange → Service → Type 0
DrawsUnused (get_request now path client) s = Unit
DrawsUnused (post_request uuid path request client) s = IsUnused uuid s

abbrev pub AllUnused : App → List Exchange → Service → Type 0
AllUnused app [] s = Unit
AllUnused app (x ∷ rest) s = DrawsUnused x s × AllUnused app rest (serve app x s).1

serve-Advances :
    (app : App) (x : Exchange) (s t : Service)
    → DrawsUnused x t
    → Advances s t
    → Advances s (serve app x t).1
unfolding serve do_get do_post
serve-Advances app (get_request now path client) s t free h =
    get_ends app (Advances s) (λ c u. perform-Advances app.lib c s u) now client (get_route path) t
      h
serve-Advances app (post_request uuid path request client) s t free h =
    lift_state (Advances s) (request_body request) _ t h λ payload _.
      post_ends app (Advances s) (λ c u. perform-Advances app.lib c s u) uuid payload client
        (post_route path) t free h

serve_all-Advances :
    (app : App) (exchanges : List Exchange) (s t : Service)
    → AllUnused app exchanges t
    → Advances s t
    → Advances s (serve_all app exchanges t)
unfolding serve_all
serve_all-Advances app [] s t free h = h
serve_all-Advances app (x ∷ rest) s t free h =
    serve_all-Advances app rest s (serve app x t).1 free.1 (serve-Advances app x s t free.0 h)

-- Over any sequence of HTTP requests, refused ones and those that crash included, that begins with
-- keyed dictionaries and draws fresh uuids, whatever v2 and the LLM provider answer: owners of
-- specifications, frozen sessions, the origin of each RTL version, verification packages, evidence
-- and run outcomes stay as they were, and the dictionaries stay keyed.
pub serve_all-Extends :
    (app : App) (exchanges : List Exchange) (s : Service)
    → IsKeyed s
    → AllUnused app exchanges s
    → Extends s (serve_all app exchanges s) × IsKeyed (serve_all app exchanges s)
serve_all-Extends app exchanges s keyed free =
    let a =
      serve_all-Advances app exchanges s s free
        (record { extends = Extends-refl s; keyed = keyed }) in
    (a.extends, a.keyed)
