-- ===== src/Tests/Withdrawing.antt =====
-- The theorem on submitted withdrawals at work.
use mark_solutions.Base.{ℕ, false, Option, none, some, List, [], ◌∷◌}
use mark_solutions.Store.{CodeStatus, withdrawal, Db}
use mark_solutions.Documents.{Submission, accepted, defect, Withdrawal}
use mark_solutions.Tests.Data.{shop}

abbrev broken : Withdrawal
broken = record {
  codes = record { code = 50; is_partial = false; unit_id = none } ∷ [];
  type = some withdrawal;
  reason = some defect;
  comment = [];
  children_write_off = false;
}

abbrev stocked : Db
stocked = record shop {
  vault =
      record {
        id = 50;
        order_id = 10;
        tenant_id = 7;
        card_id = 3;
        gtin = [];
        mask = [];
        secret = record { serial = []; ai91 = none; ai92 = none };
        label_key = none;
        status = CodeStatus.introduced;
      }
      ∷ [];
}

abbrev answering : List ℕ → Option Submission
answering codes = some (accepted 700)
