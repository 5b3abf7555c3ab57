-- ===== src/Httpx/Guards.antt =====
-- What a request that asks for a logged-in user goes on with.
use esppdv.Base.{some, ◌≡◌}
use esppdv.Outcome.{ok}
use esppdv.Exec.{◌>>=◌}
use esppdv.World.{World}
use esppdv.World.Sql.{M}
use esppdv.World.Quiet.{Quiet, quiet_rules}
use esppdv.World.Inversion.{or_raise-elim}
use esppdv.Httpx.{AuthInfo, Locals, require_auth, auth_from_locals}

pub Quiet-require_auth : (l : Locals) → Quiet (require_auth l)
unfolding require_auth
Quiet-require_auth l = search quiet_rules

-- A request that goes on is one of a logged-in user.
pub auth-elim :
    {B P : Type 0} (g : AuthInfo → M B) (w : World) {b : B} {t : World} (l : Locals)
    → (require_auth l >>= g) w ≡ (ok b, t)
    → ((a : AuthInfo) → auth_from_locals l ≡ some a → g a w ≡ (ok b, t) → P)
    → P
unfolding require_auth
auth-elim g w l h k = or_raise-elim g w _ _ h k
