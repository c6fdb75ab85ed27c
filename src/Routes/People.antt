-- ===== src/Routes/People.antt =====
-- The routes of modules/students and modules/coaches.
use mib_server.Prelude.{List, [], ◌∷◌, none, some}
use mib_server.Routes.{Route, Verb, in_class, managers, all_staff}

-- `StudentsController`
abbrev pub students_routes : List Route
students_routes =
    in_class all_staff Verb.post "students" "create" none
    ∷ in_class all_staff Verb.get "students" "findAll" none
    ∷ in_class all_staff Verb.get "students/:id" "findOne" none
    ∷ in_class all_staff Verb.patch "students/:id" "update" none
    ∷ in_class all_staff Verb.delete "students/:id" "remove" none
    ∷ in_class all_staff Verb.post "students/:id/tags" "addTag" none
    ∷ in_class all_staff Verb.delete "students/:id/tags/:tagId" "removeTag" none
    ∷ in_class all_staff Verb.post "students/:id/groups" "addGroup" none
    ∷ in_class all_staff Verb.delete "students/:id/groups/:groupId" "removeGroup" none
    ∷ in_class all_staff Verb.get "tags" "listTags" none
    ∷ in_class all_staff Verb.post "tags" "createTag" (some managers)
    ∷ in_class all_staff Verb.get "groups" "listGroups" none
    ∷ in_class all_staff Verb.post "groups" "createGroup" (some managers)
    ∷ []

-- `CoachesController`
abbrev pub coaches_routes : List Route
coaches_routes =
    in_class all_staff Verb.post "coaches" "create" none
    ∷ in_class all_staff Verb.get "coaches" "findAll" none
    ∷ in_class all_staff Verb.get "coaches/:id" "findOne" none
    ∷ in_class all_staff Verb.patch "coaches/:id" "update" none
    ∷ in_class all_staff Verb.delete "coaches/:id" "remove" (some managers)
    ∷ []
