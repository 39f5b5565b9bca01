-- ===== src/Session/Config.antt =====
-- crates/agent/src/config.rs: a push's files, and the tools to start.
-- Paths are texts; the operations of the file system, and of `Path`, are the record `Files`.
use multi_proxy.Prelude.{ℕ, List, [], ◌∷◌, ◌++◌, Option, none, some, Text, codes}
use multi_proxy.Prelude.Results.{Action, pure, ◌>>◌}
use multi_proxy.Contract.Model.{Tool, gost, realm}
use multi_proxy.Contract.Messages.{ConfigPush}

pub record Files (World E : Type 0) : Type 0 where
  pub join : Text → Text → Text
  pub parent : Text → Option Text
  pub create_dir_all : Text → Action World E Unit
  pub write : Text → Text → Action World E Unit

pub record ConfigPaths : Type 0 where
  pub gost : Text
  pub realm : Text
  pub tls_cert : Text
  pub tls_key : Text

pub record AppliedConfig : Type 0 where
  pub tool : Tool
  pub config_path : Text

pub record ApplyResult : Type 0 where
  pub starts : List AppliedConfig
  pub applied_gen : ℕ

abbrev pub tool_start : Tool → Text → Option Text → List AppliedConfig
tool_start tool path none = []
tool_start tool path (some text) = record { tool = tool; config_path = path } ∷ []

-- The tools whose configuration a push carries.
abbrev pub starts_of : ConfigPush → ConfigPaths → List AppliedConfig
starts_of push paths =
    tool_start gost paths.gost push.gost_config ++ tool_start realm paths.realm push.realm_config

module _ (World E : Type 0) (fs : Files World E) where
  unfoldable pub under : Text → ConfigPaths
  under base = record {
    gost = fs.join base (codes "gost.json");
    realm = fs.join base (codes "realm.toml");
    tls_cert = fs.join base (codes "tls.crt");
    tls_key = fs.join base (codes "tls.key");
  }

  abbrev make_parent : Option Text → Action World E Unit
  make_parent none = pure tt
  make_parent (some dir) = fs.create_dir_all dir

  -- One file of the push, if it carries it.
  abbrev pub write_file : Text → Option Text → Action World E Unit
  write_file path none = pure tt
  write_file path (some text) = do make_parent (fs.parent path); fs.write path text

  unfoldable pub apply : ConfigPush → ConfigPaths → Action World E ApplyResult
  apply push paths = do
    write_file paths.gost push.gost_config
    write_file paths.realm push.realm_config
    write_file paths.tls_cert push.tls_cert_pem
    write_file paths.tls_key push.tls_key_pem
    pure (record { starts = starts_of push paths; applied_gen = push.desired_gen })
