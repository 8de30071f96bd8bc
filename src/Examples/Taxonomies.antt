-- ===== src/Examples/Taxonomies.antt =====
-- The competency service over its repository's table, on a table of one proposal.
use cred_chain_golang.Base.{refl, ℕ, false, List, [], ◌∷◌, none, some, inr, if◌then◌else◌, ◌==◌}
use cred_chain_golang.Domain.Fault.{ok}
use cred_chain_golang.Domain.Reference.{Reference}
use cred_chain_golang.Effect.{Backend, World}
use cred_chain_golang.Taxonomy.{TaxonomyService, empty_reference}
use cred_chain_golang.Taxonomy.Kinds.{competency}
use cred_chain_golang.Taxonomy.Table.{Database, repository, is_unique, is_fresh, conflicts}
use cred_chain_golang.Taxonomy.Lifecycle.{Evolves}
use cred_chain_golang.Taxonomy.Statements.{IsUnique}
use cred_chain_golang.Taxonomy.Requests.{Request, IsBacked, serve_all, requests_keep_taxonomy}
use cred_chain_golang.Examples.{officer, holder}

abbrev tables : Backend
tables = record { Db = Database; Chain = ℕ; Queue = ℕ; Files = ℕ; Cache = ℕ }

abbrev competencies : TaxonomyService tables
competencies = record {
  kind = competency;
  repo = repository competency;
  count_uses = λ ids db. ok 0;
  trim_space = λ text. text;
}

abbrev whole : Database → Database
whole db = db

law : IsBacked competencies whole
unfolding repository
law = record {
  find = λ id db r h. h;
  store = λ rs db. inr refl;
  update = λ rs db. inr refl;
  destroy = λ ids db. inr refl;
}

abbrev proposal : Reference
proposal = record empty_reference { id = "K1"; name = "go"; submitter_user_id = some "U2" }

abbrev table : Database
table = record {
  rows = proposal ∷ [];
  trim_space = λ text. text;
  lower = λ text. if text == "Go" then "go" else text;
  referenced = λ id. false;
  ulid = λ n. "K2";
  drawn = 0;
}

abbrev world : World tables
world = record { db = table; chain = 0; queue = 0; files = 0; cache = 0; drawn = 0 }

-- A name that is taken, an approval, an approval too many, and a second competency.
abbrev requests : List Request
requests =
    Request.submitting (some holder) "Go"
    ∷ Request.approving (some officer) 5 "K1"
    ∷ Request.rejecting (some officer) 6 "K1" "late"
    ∷ Request.storing (some officer) 7 "SQL" none
    ∷ []

requests_keep_taxonomy_example :
    IsUnique (serve_all competencies requests world).db
    × Evolves (proposal ∷ []) (serve_all competencies requests world).db.rows
unfolding is_unique is_fresh conflicts
requests_keep_taxonomy_example = requests_keep_taxonomy competencies whole law requests world refl
