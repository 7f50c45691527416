-- ===== src/Mongo/Setup.antt =====
-- `NewMongoClient`, over the driver's steps: parsing the URL, connecting, the ping.
use rond.Prelude.{
  String, ◌||◌, Option, none, some, Result, ok, err, error_text, ◌==◌, if◌then◌else◌, ◌>>=◌,
}
use rond.Prelude.Text.{◌⧺◌}
use rond.Config.{EnvironmentVariables}
use rond.Mongo.{MongoClient, explained}

-- The driver's client `C`, and its collections of a database.
pub record Driver (C : Type 0) : Type 0 where
  pub parse_and_validate : String → Result String
  pub connect : String → Result C
  pub disconnect : C → Result (Unit {0})
  pub ping : C → Result (Unit {0})
  pub collections : C → String → String → String → MongoClient

-- `Disconnect`; without a client nothing is called.
unfoldable pub disconnect : {C : Type 0} → Driver C → Option C → Result (Unit {0})
disconnect driver none = ok tt
disconnect driver (some client) = driver.disconnect client

module _ {C : Type 0} (driver : Driver C) where
  unfoldable pub connected : EnvironmentVariables → Result (Option MongoClient)
  connected env =
      explained "failed MongoDB connection string validation: "
        (driver.parse_and_validate env.mongo_db_url)
      >>= λ database.
          explained "error connecting to MongoDB: " (driver.connect env.mongo_db_url) >>= λ client.
          explained "error verifying MongoDB connection: " (driver.ping client) >>= λ _. ok (
            some (
              driver.collections client database env.roles_collection_name
                env.bindings_collection_name))

  -- Without a URL there is no client, and that is no error.
  unfoldable pub new_mongo_client : EnvironmentVariables → Result (Option MongoClient)
  new_mongo_client env =
      if env.mongo_db_url == ""
      then ok none
      else if env.roles_collection_name == "" || env.bindings_collection_name == ""
      then err (
          error_text (
            "MongoDB url is not empty, required variables might be missing: BindingsCollectionName: \""
            ⧺ env.bindings_collection_name ⧺ "\",  RolesCollectionName: \""
            ⧺ env.roles_collection_name ⧺ "\""))
      else connected env
