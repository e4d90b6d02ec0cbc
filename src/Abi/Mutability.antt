-- ===== src/Abi/Mutability.antt =====
-- The mutability of contract functions (crates/abi/src/function.rs).
use Prim.Native.Nat.{max}
use fe.Prelude.{ℕ, ◌≡◌, refl}

pub data StateMutability : Type 0 where
  pure view nonpayable payable : StateMutability

pub data SelfParam : Type 0 where
  none imm mut : SelfParam

pub data CtxParam : Type 0 where
  none imm mut : CtxParam

-- `StateMutability::from_self_and_ctx_params`
unfoldable pub from_self_and_ctx_params : SelfParam → CtxParam → StateMutability
from_self_and_ctx_params SelfParam.none CtxParam.none = pure
from_self_and_ctx_params SelfParam.none CtxParam.imm = view
from_self_and_ctx_params SelfParam.none CtxParam.mut = payable
from_self_and_ctx_params SelfParam.imm CtxParam.none = view
from_self_and_ctx_params SelfParam.imm CtxParam.imm = view
from_self_and_ctx_params SelfParam.imm CtxParam.mut = payable
from_self_and_ctx_params SelfParam.mut ctx = payable

-- How much a function can do, from nothing to everything; `nonpayable` is not used.
abbrev pub rank_self : SelfParam → ℕ
rank_self SelfParam.none = 0
rank_self SelfParam.imm = 1
rank_self SelfParam.mut = 2

abbrev pub rank_ctx : CtxParam → ℕ
rank_ctx CtxParam.none = 0
rank_ctx CtxParam.imm = 1
rank_ctx CtxParam.mut = 2

abbrev pub rank : StateMutability → ℕ
rank pure = 0
rank view = 1
rank nonpayable = 2
rank payable = 2

-- The mutability of a function is the greater of what its `self` parameter and its context
-- parameter allow.
from_self_and_ctx_params-rank :
    (self_ : SelfParam) (ctx : CtxParam)
    → rank (from_self_and_ctx_params self_ ctx) ≡ max (rank_self self_) (rank_ctx ctx)
unfolding from_self_and_ctx_params
from_self_and_ctx_params-rank SelfParam.none CtxParam.none = refl
from_self_and_ctx_params-rank SelfParam.none CtxParam.imm = refl
from_self_and_ctx_params-rank SelfParam.none CtxParam.mut = refl
from_self_and_ctx_params-rank SelfParam.imm CtxParam.none = refl
from_self_and_ctx_params-rank SelfParam.imm CtxParam.imm = refl
from_self_and_ctx_params-rank SelfParam.imm CtxParam.mut = refl
from_self_and_ctx_params-rank SelfParam.mut CtxParam.none = refl
from_self_and_ctx_params-rank SelfParam.mut CtxParam.imm = refl
from_self_and_ctx_params-rank SelfParam.mut CtxParam.mut = refl
