-- ===== src/Web/Unreachable.antt =====
-- Paths of the web page that no handler answers.
use cloudpost.Prelude.{refl, ◌≡◌}
use cloudpost.Text.{codes, eqb, has_prefix}
use cloudpost.Sender.Queue.{Network}
use cloudpost.Web.Api.{admin_or_none, handle_api, is_admin_path}
use cloudpost.Web.Http.{Outside, Request, Site, failure}

-- POST /api/password comes to no handler: the answer is 404, and nothing changes.
pub handle_api-password :
    (o : Outside) (net : Network) (w : Site) (r : Request)
    → r.path ≡ codes "/api/password"
    → handle_api o net w r ≡ (w, failure 404)
unfolding handle_api admin_or_none is_admin_path eqb has_prefix
handle_api-password o net w r h = rw h refl
