-- ===== src/Server/Frame.antt =====
-- What a request leaves alone: the signals and the jobs. The children are the handlers.
pub mod Keys
pub mod Others
pub mod Run
pub mod Posts
use tradecast.Prelude.{Option, none, some, Text}
use tradecast.Types.{Uuid}
use tradecast.World.{World}
pub use tradecast.World.Frame.{KeepsSignals, Keeps, Keeps-refl, with_db, Keeps-trans}
use tradecast.Admin.{Reply, with_id, with_body}

pub with_id-Keeps :
    {A : Type 0} (o : Option Uuid) (m : Text) (w : World) (h : Uuid → Reply A × World)
    → ((id : Uuid) → Keeps w (h id).1)
    → Keeps w (with_id o m w h).1
with_id-Keeps none m w h k = Keeps-refl w
with_id-Keeps (some id) m w h k = k id

pub with_body-Keeps :
    {A B : Type 0} (o : Option B) (w : World) (h : B → Reply A × World)
    → ((b : B) → Keeps w (h b).1)
    → Keeps w (with_body o w h).1
with_body-Keeps none w h k = Keeps-refl w
with_body-Keeps (some b) w h k = k b

-- the same of a handler's result
abbrev pub Kept : {A : Type 0} → World → A × World → Type 0
Kept w r = Keeps w r.1
