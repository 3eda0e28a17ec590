-- ===== src/Access/Modules.antt =====
-- The modules of a product (src/common/product-modes/product-mode.config.ts).
use superflow_api.Base.{ℕ, ◌≡◌, refl, Bool, true, false, ◌&&◌, List, [], ◌∷◌, ◌==◌, any, arith}

pub data ProductMode : Type 0 where
  workshop connect : ProductMode

pub data ModuleKey : Type 0 where
  appointments job_cards customers vehicles stock estimates invoicing technician_loading : ModuleKey
  wip operational_analytics dms_integration booking_import workshop_loading : ModuleKey
  capacity_management priority_engine bottleneck_detection idle_time_alerts : ModuleKey
  next_best_action advisor_performance technician_performance branch_performance : ModuleKey
  financial_analytics : ModuleKey

abbrev key_place : ModuleKey → ℕ
key_place appointments = 0
key_place job_cards = 1
key_place customers = 2
key_place vehicles = 3
key_place stock = 4
key_place estimates = 5
key_place invoicing = 6
key_place technician_loading = 7
key_place wip = 8
key_place operational_analytics = 9
key_place dms_integration = 10
key_place booking_import = 11
key_place workshop_loading = 12
key_place capacity_management = 13
key_place priority_engine = 14
key_place bottleneck_detection = 15
key_place idle_time_alerts = 16
key_place next_best_action = 17
key_place advisor_performance = 18
key_place technician_performance = 19
key_place branch_performance = 20
key_place financial_analytics = 21

abbrev pub has_module : List ModuleKey → ModuleKey → Bool
has_module modules m = any (λ x. key_place x == key_place m) modules

-- `PRODUCT_MODE_MODULES`
unfoldable pub product_mode_modules : ProductMode → List ModuleKey
product_mode_modules workshop =
    appointments ∷ job_cards ∷ customers ∷ vehicles ∷ stock ∷ estimates ∷ invoicing
    ∷ technician_loading ∷ wip ∷ operational_analytics ∷ []
product_mode_modules connect =
    dms_integration ∷ booking_import ∷ workshop_loading ∷ capacity_management ∷ wip
    ∷ priority_engine ∷ bottleneck_detection ∷ idle_time_alerts ∷ next_best_action
    ∷ advisor_performance ∷ technician_performance ∷ branch_performance ∷ operational_analytics
    ∷ financial_analytics ∷ []

-- `CONNECT_FORBIDDEN_MODULES`
abbrev pub connect_forbidden_modules : List ModuleKey
connect_forbidden_modules = invoicing ∷ stock ∷ []

-- `isModuleEnabled`
unfoldable pub is_module_enabled : ProductMode → List ModuleKey → ModuleKey → Bool
is_module_enabled mode enabled m = has_module (product_mode_modules mode) m && has_module enabled m

forbidden-connect :
    (m : ModuleKey)
    → has_module connect_forbidden_modules m ≡ true
    → has_module (product_mode_modules connect) m ≡ false
unfolding product_mode_modules
forbidden-connect invoicing h = refl
forbidden-connect stock h = refl
forbidden-connect _ h = cc

-- A workshop of the product Connect never has one of the modules that are forbidden to it,
-- whatever modules are stored as enabled for it.
pub connect-forbidden :
    (enabled : List ModuleKey) (m : ModuleKey)
    → has_module connect_forbidden_modules m ≡ true
    → is_module_enabled connect enabled m ≡ false
unfolding is_module_enabled
connect-forbidden enabled m h = ground (arith, forbidden-connect m h)
