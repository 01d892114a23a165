-- ===== src/Core/Controller.antt =====
-- backend/src/erp/core/controller.py: the base class of the HTTP controllers. A subclass is its
-- prefix, its tags and the routes that its `register_routes` adds.
use karmevo_erp.Prelude.{String, List}

pub record Route : Type 0 where
  pub path : String
  pub endpoint : String
  pub method : String

pub record Controller : Type 0 where
  pub prefix : String
  pub tags : List String
  pub routes : List Route
