-- ===== src/Domain/Project/Isolation.antt =====
-- The projects of one organization are out of reach of the others.
use vergo.Prelude.{String, ◌==◌, ◌≡◌, Bool, not, [], inl, inr, arith, Option-cases, eq_iff, eq_refl}
use vergo.Table.{find, select}
use vergo.Table.Laws.{
  find-and_none, find_holds, find-concat, select-append_other, select-update, select-delete,
}
use vergo.Platform.{Platform}
use vergo.Db.{World, ok}
use vergo.Db.Rows
use vergo.Repo.Projects.{project_in_org, updated_project}
use vergo.Domain.Project.{Project, create, get, update, delete, null_if_empty}

-- A project of another organization.
abbrev pub of_other : String → Rows.Project → Bool
of_other org_id r = not (r.org_id == org_id)

module _ (p : Platform) (org_id : String) (w : World) where
  -- Whatever the driver does, the creation, the update and the deletion of a project for an
  -- organization leave the projects of all others as they were.
  other_projects :
      (id name description user_id : String)
      → (select (of_other org_id) (create p org_id name description user_id w).1.projects
          ≡ select (of_other org_id) w.projects)
        × (select (of_other org_id) (update org_id id name description w).1.projects
            ≡ select (of_other org_id) w.projects)
        × (select (of_other org_id) (delete org_id id w).1.projects
            ≡ select (of_other org_id) w.projects)
  unfolding create update delete
  other_projects id name description user_id = (
    ground (
      arith,
      eq_refl org_id,
      select-append_other (of_other org_id) w.projects (record {
        id = p.uuid w.drawn;
        org_id = org_id;
        name = name;
        description = null_if_empty description;
        created_by = user_id;
        created_at = w.now;
        updated_at = w.now;
      }),
    ),
    ground (
      arith,
      select-update (of_other org_id) (project_in_org org_id id)
          (updated_project name (null_if_empty description) w.now) w.projects
          (λ x e. (ground (arith, e), ground (arith, e))),
    ),
    ground (
      arith,
      select-delete (of_other org_id) (project_in_org org_id id) w.projects
          (λ x e. ground (arith, e)),
    ),
  )

  -- With the statements answered, a project that was created is read back as it was returned.
  get-create :
      (name description user_id : String) (r : Project)
      → w.faults ≡ []
      → (create p org_id name description user_id w).0 ≡ ok r
      → (get org_id r.id (create p org_id name description user_id w).1).0 ≡ ok r
  unfolding create get
  get-create name description user_id r f h =
      elim (Option-cases (find (λ x. x.id == p.uuid w.drawn) w.projects)) [
        | inr (x, e) ↦ absurd (ground arith)
        | inl e ↦ ground (
          arith,
          eq_refl org_id,
          eq_refl (p.uuid w.drawn),
          find-concat (project_in_org org_id (p.uuid w.drawn)) w.projects
              (record {
                id = p.uuid w.drawn;
                org_id = org_id;
                name = name;
                description = null_if_empty description;
                created_by = user_id;
                created_at = w.now;
                updated_at = w.now;
              })
              (find-and_none (λ x. x.id == p.uuid w.drawn) (λ x. x.org_id == org_id) w.projects e),
        )
      ]

  -- Whatever the driver does, the project that is read has the identifier and the organization that
  -- were asked for.
  get-org_id :
      (id : String) (r : Project) → (get org_id id w).0 ≡ ok r → (r.id ≡ id) × (r.org_id ≡ org_id)
  unfolding get
  get-org_id id r h = elim (Option-cases (find (project_in_org org_id id) w.projects)) [
    | inl e ↦ absurd (ground arith)
    | inr (x, e) ↦
        let hit = find_holds (project_in_org org_id id) w.projects x e in
        (ground (arith, hit, eq_iff x.id id), ground (arith, hit, eq_iff x.org_id org_id))
  ]
