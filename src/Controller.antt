-- ===== src/Controller.antt =====
-- src/mprpccontroller.cc: the state of one call as the caller sees it.
use mprpc_advanced_z.Base.{Bool, true, false, []}
use mprpc_advanced_z.Base.Bytes.{Bytes}

pub record Controller : Type 0 where
  pub m_failed : Bool
  pub m_err_text : Bytes

-- MprpcController()
unfoldable pub new : Controller
new = record { m_failed = false; m_err_text = [] }

unfoldable pub reset : Controller → Controller
reset c = record c { m_failed = false; m_err_text = [] }

unfoldable pub failed : Controller → Bool
failed c = c.m_failed

unfoldable pub error_text : Controller → Bytes
error_text c = c.m_err_text

unfoldable pub set_failed : Bytes → Controller → Controller
set_failed reason c = record c { m_failed = true; m_err_text = reason }

-- Not implemented in the source: nothing is cancelled.
unfoldable pub start_cancel : Controller → Controller
start_cancel c = c

unfoldable pub is_canceled : Controller → Bool
is_canceled c = false

unfoldable pub notify_on_cancel : Controller → Controller
notify_on_cancel c = c

-- The calls that change a controller.
pub data Call : Type 0 where
  resets : Call
  fails : Bytes → Call
  cancels : Call
  listens : Call

unfoldable pub step : Call → Controller → Controller
unfolding reset set_failed start_cancel notify_on_cancel
step resets c = reset c
step (fails reason) c = set_failed reason c
step cancels c = start_cancel c
step listens c = notify_on_cancel c
