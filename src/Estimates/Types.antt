-- ===== src/Estimates/Types.antt =====
-- The rows of src/estimates/estimates.service.ts. Quantities and prices are in hundredths, percentages
-- in hundredths of a percent, and none is negative; a total is exact, in units of 10⁻⁸, and a tax in
-- units of 10⁻¹²: the columns round them to two places. A place of 0 also stands for none. Texts are
-- only compared, so they are numbers. A null of a quantity, a price, a discount or a Boolean is kept as
-- the 0 or the false that it is read as.
use superflow_api.Base.{ℕ, Bool, Option, List}
use superflow_api.Base.Int.{ℤ}

pub data LineType : Type 0 where
  labour part sublet : LineType

pub record Line : Type 0 where
  pub id : ℕ
  pub job_id : Option ℕ
  pub inspection_response_id : Option ℕ
  pub quote_group_id : Option ℕ
  pub concern_id : Option ℕ
  pub kind : LineType
  pub description : Option ℕ
  pub part_number : Option ℕ
  pub quantity : ℕ
  pub unit_price : ℕ
  pub discount_pct : ℕ
  pub tax_rate_pct : Option ℕ
  pub line_total : ℤ
  pub tax_amount : ℤ
  pub is_recommended : Bool
  pub sort_order : ℕ
  pub added_by : ℕ

-- A line as the page sends it, of a bulk save and of `CreateLineDto`. `fresh` is the id that a line
-- without one gets. No text of it is empty.
pub record LineDto : Type 0 where
  pub id : Option ℕ
  pub fresh : ℕ
  pub kind : Option LineType
  pub description : Option ℕ
  pub part_number : Option ℕ
  pub quantity : Option ℕ
  pub unit_price : Option ℕ
  pub discount_pct : Option ℕ
  pub tax_rate_pct : Option ℕ
  pub is_recommended : Option Bool
  pub inspection_response_id : Option ℕ
  pub quote_group_id : Option ℕ
  pub concern_id : Option ℕ

-- A field that an update leaves out is none; one that it gives as null is some none.
pub record UpdateLineDto : Type 0 where
  pub description : Option (Option ℕ)
  pub part_number : Option (Option ℕ)
  pub quantity : Option (Option ℕ)
  pub unit_price : Option (Option ℕ)
  pub discount_pct : Option (Option ℕ)
  pub tax_rate_pct : Option (Option ℕ)
  pub is_recommended : Option Bool
  pub quote_group_id : Option (Option ℕ)
  pub concern_id : Option (Option ℕ)

pub record Group : Type 0 where
  pub id : ℕ
  pub job_id : ℕ
  pub title : ℕ

-- The settings `default_tax_rate` and `tax_rate`, where they are numbers
pub record TaxSettings : Type 0 where
  pub default_tax_rate : Option ℕ
  pub tax_rate : Option ℕ

-- Of a customer's decision, a deferred work and an entry of the edit history only the line's id is
-- read, and of the rows that a line refers to (`jobs`, `concerns`, `responses`, `users`) only their own.
pub record Estimates : Type 0 where
  pub lines : List Line
  pub groups : List Group
  pub decisions : List ℕ
  pub deferred : List ℕ
  pub history : List ℕ
  pub settings : TaxSettings
  pub jobs : List ℕ
  pub concerns : List ℕ
  pub responses : List ℕ
  pub users : List ℕ

pub data Reason : Type 0 where
  group_missing line_missing not_unique is_referenced key_missing : Reason
